-- ===== src/Protocol/Valid.antt =====
-- What the checks of an observation in protocol.go accept, described without the loops.
use worms_ng.Prelude.{
  All, Bool, List, Option, [], arith, count_if, eq_ℤ, false, if◌then◌else◌, is_blank, length, none,
  pos, pos_part, some, str_eq_iff, sym, true, update, ℕ, ℤ, ◌+◌, ◌<◌, ◌==◌, ◌↔◌, ◌∙◌, ◌∷◌, ◌≡◌, ◌≢◌,
  ◌≤ℤ◌, ◌⊎◌,
}
use worms_ng.Prelude.Bits.{six, six_elim}
use worms_ng.Protocol.{
  Action, ActionKind, CoordinateBounds, Fault, Neighbor, Observation, Position, TrailState,
  action_move, action_resign, bad_direction, check_actions, check_neighbors, check_position,
  check_trail_states, contains_position, missing_from, or_else, outside_six, repeated_direction,
  schema_version, trail_empty, trail_other, trail_own, unknown_action, unknown_trail,
  validate_action, validate_bounds, validate_observation,
}

-- The position lies in the box, its sides included.
pub Within : CoordinateBounds → Position → Type 0
Within b p = (b.min_x ≤ℤ p.x) × (p.x ≤ℤ b.max_x) × (b.min_y ≤ℤ p.y) × (p.y ≤ℤ b.max_y)

pub InSix : ℤ → Type 0
InSix d = (pos 0 ≤ℤ d) × (d ≤ℤ pos 5)

pub ValidAction : Action → Type 0
ValidAction a = elim a.kind [
  | action_move ↦ InSix a.direction
  | action_resign ↦ a.direction ≡ pos 0
  | unknown_action k ↦ ⊥
]

pub KnownTrail : TrailState → Type 0
KnownTrail t = (t ≡ trail_empty) ⊎ (t ≡ trail_own) ⊎ (t ≡ trail_other)

pub FineNeighbor : CoordinateBounds → Neighbor → Type 0
FineNeighbor b n = Within b n.position × InSix n.direction

-- How many neighbours lie in direction `d`.
unfoldable pub count_direction : ℕ → List Neighbor → ℕ
count_direction d ns = count_if (λ n. eq_ℤ n.direction (pos d)) ns

check_position_iff :
    (b : CoordinateBounds) (p : Position) → (check_position b p ≡ none) ↔ Within b p
unfolding check_position contains_position Within
check_position_iff b p = ground arith

validate_kind_iff :
    (k : ActionKind) (d : ℤ)
    → (validate_action (record { kind = k; direction = d }) ≡ none)
      ↔ ValidAction (record { kind = k; direction = d })
unfolding validate_action ValidAction InSix
validate_kind_iff action_move d = ground arith
validate_kind_iff action_resign d = ground arith
validate_kind_iff (unknown_action k) d = ground arith

pub validate_action_iff : (a : Action) → (validate_action a ≡ none) ↔ ValidAction a
validate_action_iff a = validate_kind_iff a.kind a.direction

missing_from_iff :
    (seen : ℕ → Bool) → (missing_from 6 seen ≡ none) ↔ ((d : ℕ) → d < 6 → seen d ≡ true)
unfolding missing_from six
missing_from_iff seen = (
  λ h d lt. six_elim seen d (ground arith) lt,
  λ h. ground (
    arith,
    h 0 (omega arith),
    h 1 (omega arith),
    h 2 (omega arith),
    h 3 (omega arith),
    h 4 (omega arith),
    h 5 (omega arith),
  ),
)

-- The tests of one neighbour pass exactly when each passes.
gate_iff :
    (c rest : Option Fault) (outside again : Bool)
    → (or_else c
          (if outside then some bad_direction else if again then some repeated_direction else rest)
        ≡ none)
      ↔ (c ≡ none) × (outside ≡ false) × (again ≡ false) × (rest ≡ none)
gate_iff c rest outside again = ground arith

outside_six_iff : (d : ℤ) → (outside_six d ≡ false) ↔ InSix d
unfolding InSix
outside_six_iff d = ground arith

below_six : (d : ℤ) → InSix d → pos_part d < 6
unfolding InSix
below_six d h = ground arith

-- Once a direction is marked, its count goes from the neighbours to the flags.
mark :
    (seen : ℕ → Bool) (n : Neighbor) (ns : List Neighbor) (d : ℕ)
    → InSix n.direction
    → seen (pos_part n.direction) ≡ false
    → (if update seen (pos_part n.direction) true d then 1 else 0) + count_direction d ns
      ≡ (if seen d then 1 else 0) + count_direction d (n ∷ ns)
unfolding InSix count_direction
mark seen n ns d six free = ground arith

fresh :
    (seen : ℕ → Bool) (n : Neighbor) (ns : List Neighbor)
    → InSix n.direction
    → (if seen (pos_part n.direction) then 1 else 0)
        + count_direction (pos_part n.direction) (n ∷ ns)
      ≡ 1
    → seen (pos_part n.direction) ≡ false
unfolding InSix count_direction
fresh seen n ns six once = ground arith

check_neighbors_iff :
    (b : CoordinateBounds) (seen : ℕ → Bool) (ns : List Neighbor)
    → (check_neighbors b seen ns ≡ none)
      ↔ All (FineNeighbor b) ns
        × ((d : ℕ) → d < 6 → (if seen d then 1 else 0) + count_direction d ns ≡ 1)
unfolding check_neighbors count_direction FineNeighbor
check_neighbors_iff b seen [] = (
  λ h. (tt, λ d lt. ground (arith, (missing_from_iff seen).0 h d lt)),
  λ h. (missing_from_iff seen).1 (λ d lt. ground (arith, h.1 d lt)),
)
check_neighbors_iff b seen (n ∷ ns) =
    let k = pos_part n.direction in
    let seen' = update seen k true in
    let gate =
      gate_iff (check_position b n.position) (check_neighbors b seen' ns) (outside_six n.direction)
        (seen k) in
    let rest = check_neighbors_iff b seen' ns in
    let place = check_position_iff b n.position in
    let range = outside_six_iff n.direction in
    (
      λ h.
          let passed = gate.0 h in
          let six = range.0 passed.1 in
          let later = rest.0 passed.3 in
          (
            ((place.0 passed.0, six), later.0),
            λ d lt. sym (mark seen n ns d six passed.2) ∙ later.1 d lt,
          ),
      λ h.
          let six = h.0.0.1 in
          let free = fresh seen n ns six (h.1 k (below_six n.direction six)) in
          gate.1 (
            place.1 h.0.0.0,
            range.1 six,
            free,
            rest.1 (h.0.1, λ d lt. mark seen n ns d six free ∙ h.1 d lt),
          ),
    )

check_trail_states_iff : (ts : List TrailState) → (check_trail_states ts ≡ none) ↔ All KnownTrail ts
unfolding check_trail_states KnownTrail
check_trail_states_iff [] = ground arith
check_trail_states_iff (trail_empty ∷ ts) = ground (arith, check_trail_states_iff ts)
check_trail_states_iff (trail_own ∷ ts) = ground (arith, check_trail_states_iff ts)
check_trail_states_iff (trail_other ∷ ts) = ground (arith, check_trail_states_iff ts)
check_trail_states_iff (unknown_trail k ∷ ts) = ground (arith, check_trail_states_iff ts)

check_actions_iff :
    (actions : List Action) → (check_actions actions ≡ none) ↔ All ValidAction actions
unfolding check_actions
check_actions_iff [] = ground arith
check_actions_iff (a ∷ actions) = ground (arith, validate_action_iff a, check_actions_iff actions)

-- What an observation must be, within the bounds `b`.
unfoldable pub Conforms : CoordinateBounds → Observation → Type 0
unfolding is_blank
Conforms b o =
    (b.min_x ≤ℤ b.max_x)
    × (b.min_y ≤ℤ b.max_y)
    × (o.version ≡ schema_version)
    × (is_blank o.game_id ≡ false)
    × (is_blank o.worm_id ≡ false)
    × (is_blank o.decision_id ≡ false)
    × InSix o.orientation
    × Within b o.position
    × (length o.neighbors ≡ 6)
    × All (FineNeighbor b) o.neighbors
    × ((d : ℕ) → d < 6 → count_direction d o.neighbors ≡ 1)
    × (length o.trail_states ≡ 6)
    × All KnownTrail o.trail_states
    × (o.legal_actions ≢ [])
    × All ValidAction o.legal_actions
    × (o.mode ≢ "")

is_empty_iff : (xs : List Action) → ((length xs == 0) ≡ false) ↔ (xs ≢ [])
is_empty_iff [] = ground arith
is_empty_iff (x ∷ xs) = (λ h e. cc, λ h. ground arith)

-- An observation is accepted exactly when the bounds are ordered, the version is v1, no identifier
-- is blank, the orientation is a direction, each position is within the bounds, each of the six
-- directions has one neighbour, there are six known trail states, there is a legal action, each
-- legal action is valid, and the mode is not empty.
pub validate_observation_iff :
    (b : CoordinateBounds) (o : Observation) → (validate_observation b o ≡ none) ↔ Conforms b o
unfolding validate_observation validate_bounds Conforms
validate_observation_iff b o = ground (
  arith,
  str_eq_iff o.version schema_version,
  outside_six_iff o.orientation,
  check_position_iff b o.position,
  check_neighbors_iff b (λ d. false) o.neighbors,
  check_trail_states_iff o.trail_states,
  is_empty_iff o.legal_actions,
  check_actions_iff o.legal_actions,
  str_eq_iff o.mode "",
)
