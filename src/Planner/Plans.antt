-- ===== src/Planner/Plans.antt =====
-- `Plan`, `Teach` and `Lookup` of planner.go. The hashes are parameters.
use worms_ng.Prelude.{
  Bool, List, String, [], bit_and, eq_ℤ, get_elem?, if◌then◌else◌, is_empty, leb, length, ltb,
  ltb_ℤ, map, modify, none, not, pos, pos_part, some, str_eq, suc, ℕ, ℤ, ◌%◌, ◌&&◌, ◌+◌, ◌==◌, ◌||◌,
  ◌∷◌,
}
use worms_ng.Engine.Masks.{raw_mask, worm_index}
use worms_ng.Engine.Moves.{legal_moves}
use worms_ng.Engine.Observe.{Observation, observe}
use worms_ng.Engine.Rules.{lookup_rule}
use worms_ng.Engine.Snapshot.{sort_by}
use worms_ng.Engine.Turns.{set_rule, submit}
use worms_ng.Engine.Types.{Action, State, Worm, action_get_new, err, ok, to_action, u64}
use worms_ng.Planner.{
  Alternative, Config, Decision, Planned, Planner, engine_error, frozen_brain, known_pattern,
  no_action, out_of_range, pending_mismatch, planned, unknown_worm, unplanned,
}
use worms_ng.Planner.Local.{local_planning_state}
use worms_ng.Planner.Scores.{score}

-- What SHA-256 and JSON give: the number of a tie, from the seed, the mode, the local hash or the
-- tick, the round and the mask of the state, and the name; the hash of an observation with the
-- configuration; and the hash of a state.
pub record Hashes : Type 0 where
  pub tie_word : Config → String → State → String → ℕ → ℕ
  pub local_hash : Observation → Config → String
  pub state_hash : State → String

-- `tieIndex`
unfoldable pub tie_index : Hashes → Config → String → State → String → ℕ → ℕ → ℕ
tie_index h c local s name mask n = if leb n 1 then 0 else h.tie_word c local s name mask % n

-- The loop for `bestTotal`.
unfoldable pub best_total : ℤ → List Alternative → ℤ
best_total best [] = best
best_total best (a ∷ alts) = best_total (if ltb_ℤ best a.total then a.total else best) alts

-- The indices of the alternatives with the total `best`, from `i` on.
unfoldable pub tie_indices : ℤ → ℕ → List Alternative → List ℕ
tie_indices best i [] = []
tie_indices best i (a ∷ alts) =
    let rest = tie_indices best (suc i) alts in if eq_ℤ a.total best then i ∷ rest else rest

-- The loop that marks the alternatives.
unfoldable pub mark_chosen : ℤ → ℕ → ℕ → List Alternative → List Alternative
mark_chosen best chosen i [] = []
mark_chosen best chosen i (a ∷ alts) =
    record a {
      chosen = i == chosen;
      reason =
          if i == chosen
          then "highest bounded utility; seeded tie-break"
          else if eq_ℤ a.total best
          then "utility tie; not selected by seeded tie-break"
          else "lower bounded utility";
    }
    ∷ mark_chosen best chosen (suc i) alts

abbrev pub head_total : List Alternative → ℤ
head_total [] = pos 0
head_total (a ∷ alts) = a.total

-- The decision for the alternative `a`.
unfoldable pub decide :
    Hashes → Config → State → Worm → ℕ → String → List Alternative → Alternative → Decision
decide h c s w mask local alts a =
    let far = str_eq local "" in
    let action = to_action a.action in
    record {
      worm_id = w.id;
      mask = mask;
      action = action;
      alternatives = alts;
      provenance = record {
        version = "planner-v1";
        source = "bounded-strategic-planner";
        brain_id = w.brain_id;
        brain_version = w.brain_version;
        worm_id = w.id;
        mask = mask;
        action = action;
        seed = c.seed;
        mode = c.mode;
        depth = c.depth;
        capabilities = c.capabilities;
        state_hash = if far then h.state_hash s else local;
        tick = if far then s.tick else 0;
        round = if far then s.round else 0;
        alternatives = alts;
      };
    }

-- `planUnknown` behind the scores of the legal moves, of the worm `w`.
unfoldable pub choose :
    Hashes → Config → State → Worm → ℕ → String → List Alternative → Planned Decision
choose h c s w mask local alts =
    let best = best_total (head_total alts) alts in
    let ties = tie_indices best 0 alts in
    let index = tie_index h c local s w.id mask (length ties) in
    elim (get_elem? ties index) [
      | none ↦ unplanned out_of_range
      | some i ↦ elim (get_elem? alts i) [
        | none ↦ unplanned out_of_range
        | some a ↦ planned (decide h c s w mask local (mark_chosen best i 0 alts) a)
      ]
    ]

-- `planUnknown`
unfoldable pub plan_unknown : Hashes → Config → State → ℕ → ℕ → String → Planned Decision
plan_unknown h c s i mask local = elim (get_elem? s.worms i) [
  | none ↦ unplanned out_of_range
  | some w ↦
      let legal = legal_moves s w.id in
      let ordered = sort_by ltb legal in
      if is_empty legal
      then unplanned no_action
      else choose h c s w mask local (map (score c s i w) ordered)
]

-- `Plan` behind its tests, of the worm `w` in slot `i`.
unfoldable pub plan_view : Hashes → Config → State → ℕ → Worm → ℕ → Planned Decision
plan_view h c s i w mask =
    if c.capabilities.global_state then plan_unknown h c s i mask "" else elim (observe s w.id) [
      | none ↦ unplanned unknown_worm
      | some obs ↦ plan_unknown h c (local_planning_state s w obs) 0 mask (h.local_hash obs c)
    ]

-- `Plan`, with the planner behind it.
unfoldable pub plan : Hashes → Planner → State → String → Planner × Planned Decision
plan h p s name = elim (worm_index s.worms name) [
  | none ↦ (p, unplanned unknown_worm)
  | some i ↦ elim (get_elem? s.worms i) [
    | none ↦ (p, unplanned out_of_range)
    | some w ↦
        let mask = bit_and (raw_mask s w.position) 63 in
        if w.frozen
        then (p, unplanned frozen_brain)
        else if not (eq_ℤ (w.rules mask) action_get_new)
        then (p, unplanned known_pattern)
        else (record p { calls = u64 (p.calls + 1) }, plan_view h p.config s i w mask)
  ]
]

-- The end of `Teach` for an awaited decision.
unfoldable pub submit_plan : State → Planner × Planned Decision → Planner × State × Planned Decision
submit_plan s (p, unplanned e) = (p, s, unplanned e)
submit_plan s (p, planned d) =
    let submitted = submit s (pos_part d.action) in
    elim submitted.1 [
      | err e ↦ (p, submitted.0, unplanned (engine_error e))
      | ok events ↦ (p, submitted.0, planned d)
    ]

-- The end of `Teach` where nothing is awaited, for the slot `i`.
unfoldable pub install_plan :
    State → ℕ → Planner × Planned Decision → Planner × State × Planned Decision
install_plan s i (p, unplanned e) = (p, s, unplanned e)
install_plan s i (p, planned d) = (
  p,
  record s { worms = modify s.worms i (λ w. set_rule w (bit_and d.mask 63) d.action) },
  planned d,
)

-- `state.Pending.WormID != wormID || state.Pending.Slot != idx || state.Pending.Mask != mask`
abbrev pub mismatch : String → ℤ → ℕ → String → ℕ → ℕ → Bool
mismatch worm slot awaited name i mask =
    not (str_eq worm name) || not (eq_ℤ slot (pos i)) || not (awaited == mask)

-- `Teach`
unfoldable pub teach_rule : Hashes → Planner → State → String → Planner × State × Planned Decision
teach_rule h p s name = elim (worm_index s.worms name) [
  | none ↦ (p, s, unplanned unknown_worm)
  | some i ↦ elim (get_elem? s.worms i) [
    | none ↦ (p, s, unplanned out_of_range)
    | some w ↦
        let mask = bit_and (raw_mask s w.position) 63 in
        if w.frozen then (p, s, unplanned frozen_brain) else elim s.pending [
          | none ↦ install_plan s i (plan h p s name)
          | some q ↦
              if mismatch q.worm_id q.slot q.mask name i mask
              then (p, s, unplanned pending_mismatch)
              else submit_plan s (plan h p s name)
        ]
  ]
]

-- `Lookup`
unfoldable pub lookup_taught : State → String → Planned Action
lookup_taught s name = elim (worm_index s.worms name) [
  | none ↦ unplanned unknown_worm
  | some i ↦ elim (lookup_rule s name) [
    | err e ↦ unplanned unknown_worm
    | ok a ↦ elim (get_elem? s.worms i) [
      | none ↦ unplanned out_of_range
      | some w ↦ if w.frozen && eq_ℤ a action_get_new then unplanned frozen_brain else planned a
    ]
  ]
]
