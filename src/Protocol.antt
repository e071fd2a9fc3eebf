-- ===== src/Protocol.antt =====
-- internal/protocol/protocol.go: the values exchanged with an external agent, and their checks. A
-- closed set of strings is a data type with a constructor for every other string; an instant is a
-- number, 0 for the zero time.
pub mod Sample
pub mod Tests
pub mod Valid
pub mod Json
pub mod Scan
pub mod Trees
pub mod Actions
use worms_ng.Prelude.{
  Bool, Dict, List, Option, String, [], eq_ℤ, false, if◌then◌else◌, is_blank, leb_ℤ, length, ltb_ℤ,
  negsuc, none, not, pos, pos_part, some, str_eq, suc, true, update, zero, ℕ, ℤ, ◌&&◌, ◌-◌, ◌==◌,
  ◌||◌, ◌∷◌,
}

pub record Position : Type 0 where
  pub x : ℤ
  pub y : ℤ

pub record CoordinateBounds : Type 0 where
  pub min_x : ℤ
  pub max_x : ℤ
  pub min_y : ℤ
  pub max_y : ℤ

pub data TrailState : Type 0 where
  trail_empty trail_own trail_other : TrailState
  unknown_trail : String → TrailState

pub data ActionKind : Type 0 where
  action_move action_resign : ActionKind
  unknown_action : String → ActionKind

pub record Action : Type 0 where
  pub kind : ActionKind
  pub direction : ℤ

pub record Neighbor : Type 0 where
  pub direction : ℤ
  pub position : Position
  pub occupied : Bool

pub record Observation : Type 0 where
  pub version : String
  pub game_id : String
  pub worm_id : String
  pub worm_instance_id : String
  pub decision_id : String
  pub tick : ℕ
  pub position : Position
  pub orientation : ℤ
  pub neighbors : List Neighbor
  pub trail_states : List TrailState
  pub legal_actions : List Action
  pub scores : Dict String ℤ
  pub mode : String
  pub deadline : ℕ
  pub brain_id : String
  pub brain_version : String
  pub pattern_key : String
  pub provenance : Dict String String

pub record DecisionRequest : Type 0 where
  pub version : String
  pub decision_id : String
  pub observation : Observation
  pub deadline : ℕ

pub record DecisionResponse : Type 0 where
  pub version : String
  pub decision_id : String
  pub action : Action

pub data OutcomeKind : Type 0 where
  outcome_accepted outcome_timeout outcome_disconnect outcome_resigned : OutcomeKind
  outcome_duplicate outcome_stale outcome_malformed outcome_illegal : OutcomeKind
  unknown_outcome : String → OutcomeKind

pub record DecisionOutcome : Type 0 where
  pub version : String
  pub game_id : String
  pub worm_id : String
  pub decision_id : String
  pub outcome : OutcomeKind
  pub action : Option Action
  pub at : ℕ
  pub reason : String

-- Why a value is refused. Go's errors name the same cases in words.
pub data Fault : Type 0 where
  bad_bounds outside_bounds bad_version blank_id bad_orientation : Fault
  neighbor_count bad_direction repeated_direction missing_direction : Fault
  trail_count bad_trail no_actions resign_direction empty_mode : Fault
  unknown_kind unknown_outcome_kind ids_differ no_deadline : Fault

abbrev pub schema_version : String
schema_version = "v1"

abbrev pub default_bounds : CoordinateBounds
default_bounds = record {
  min_x = negsuc 1048575;
  max_x = pos 1048576;
  min_y = negsuc 1048575;
  max_y = pos 1048576;
}

-- The first fault of two checks.
abbrev pub or_else : Option Fault → Option Fault → Option Fault
or_else (some a) rest = some a
or_else none rest = rest

unfoldable pub validate_bounds : CoordinateBounds → Option Fault
validate_bounds b = if ltb_ℤ b.max_x b.min_x || ltb_ℤ b.max_y b.min_y then some bad_bounds else none

unfoldable pub contains_position : CoordinateBounds → Position → Bool
contains_position b p =
    leb_ℤ b.min_x p.x && leb_ℤ p.x b.max_x && leb_ℤ b.min_y p.y && leb_ℤ p.y b.max_y

unfoldable pub check_position : CoordinateBounds → Position → Option Fault
check_position b p = if contains_position b p then none else some outside_bounds

abbrev pub outside_six : ℤ → Bool
outside_six d = ltb_ℤ d (pos 0) || ltb_ℤ (pos 5) d

-- `Action.Validate`
unfoldable pub validate_action : Action → Option Fault
validate_action a = elim a.kind [
  | action_move ↦ if outside_six a.direction then some bad_direction else none
  | action_resign ↦ if eq_ℤ a.direction (pos 0) then none else some resign_direction
  | unknown_action k ↦ some unknown_kind
]

-- The loop over the neighbours, with `seenDirections`. A direction has been tested when it is used
-- as an index. The flags are handed to the loop over the missing directions.
unfoldable pub missing_from : ℕ → (ℕ → Bool) → Option Fault
missing_from zero seen = none
missing_from (suc n) seen =
    let rest = missing_from n seen in if seen (5 - n) then rest else some missing_direction

unfoldable pub check_neighbors : CoordinateBounds → (ℕ → Bool) → List Neighbor → Option Fault
check_neighbors b seen [] = missing_from 6 seen
check_neighbors b seen (n ∷ ns) =
    let rest = check_neighbors b (update seen (pos_part n.direction) true) ns in
    or_else (check_position b n.position) (
      if outside_six n.direction
      then some bad_direction
      else if seen (pos_part n.direction)
      then some repeated_direction
      else rest)

unfoldable pub check_trail_states : List TrailState → Option Fault
check_trail_states [] = none
check_trail_states (t ∷ ts) =
    let rest = check_trail_states ts in
    elim t [
      | trail_empty ↦ rest
      | trail_own ↦ rest
      | trail_other ↦ rest
      | unknown_trail k ↦ some bad_trail
    ]

unfoldable pub check_actions : List Action → Option Fault
check_actions [] = none
check_actions (a ∷ actions) = or_else (validate_action a) (check_actions actions)

-- `Observation.validate`. Go visits the three identifiers in any order.
unfoldable pub validate_observation : CoordinateBounds → Observation → Option Fault
unfolding is_blank
validate_observation b o = or_else (validate_bounds b) (
    if not (str_eq o.version schema_version)
    then some bad_version
    else if is_blank o.game_id || is_blank o.worm_id || is_blank o.decision_id
    then some blank_id
    else if outside_six o.orientation
    then some bad_orientation
    else or_else (check_position b o.position) (
        if not (length o.neighbors == 6)
        then some neighbor_count
        else or_else (check_neighbors b (λ d. false) o.neighbors) (
            if not (length o.trail_states == 6)
            then some trail_count
            else or_else (check_trail_states o.trail_states) (
                if length o.legal_actions == 0
                then some no_actions
                else or_else (check_actions o.legal_actions)
                    (if str_eq o.mode "" then some empty_mode else none)))))

unfoldable pub validate_request : DecisionRequest → Option Fault
unfolding is_blank
validate_request r =
    if not (str_eq r.version schema_version)
    then some bad_version
    else if is_blank r.decision_id
    then some blank_id
    else if not (str_eq r.observation.decision_id r.decision_id)
    then some ids_differ
    else if r.deadline == 0
    then some no_deadline
    else validate_observation default_bounds r.observation

unfoldable pub validate_response : DecisionResponse → Option Fault
unfolding is_blank
validate_response r =
    if not (str_eq r.version schema_version)
    then some bad_version
    else if is_blank r.decision_id
    then some blank_id
    else validate_action r.action

-- `DecisionOutcome.Validate`
unfoldable pub known_outcome : OutcomeKind → Bool
known_outcome (unknown_outcome k) = false
known_outcome k = true

unfoldable pub validate_outcome : DecisionOutcome → Option Fault
validate_outcome o =
    if not (str_eq o.version schema_version)
    then some bad_version
    else if str_eq o.game_id "" || str_eq o.worm_id "" || str_eq o.decision_id ""
    then some blank_id
    else if not (known_outcome o.outcome)
    then some unknown_outcome_kind
    else elim o.action [ none ↦ none | some a ↦ validate_action a ]
