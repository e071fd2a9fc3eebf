-- ===== src/Planner.antt =====
-- internal/planner/planner.go: the teaching policy for unknown patterns. Its configuration and its
-- results; the empty string stands for a field that is not set.
pub mod Tests
pub mod Scores
pub mod Local
pub mod Plans
pub mod Configs
pub mod Bounds
pub mod Choice
pub mod View
pub mod Teaching
pub mod Taught
use worms_ng.Prelude.{
  Bool, List, Option, String, eq_ℤ, false, if◌then◌else◌, ltb_ℤ, none, not, pos, some, str_eq, true,
  ℕ, ℤ, ◌&&◌, ◌||◌,
}
use worms_ng.Engine.Types.{Action, Direction, EngineError}

pub record Capabilities : Type 0 where
  pub observation : String
  pub global_state : Bool

-- `Capabilities.normalized`
unfoldable pub normalized : Capabilities → Capabilities
normalized c =
    let view = if str_eq c.observation "" then "local" else c.observation in
    record {
      observation = view;
      global_state = if str_eq view "global" then true else c.global_state;
    }

pub record Config : Type 0 where
  pub version : ℤ
  pub mode : String
  pub depth : ℤ
  pub seed : ℤ
  pub capture_weight : ℤ
  pub border_weight : ℤ
  pub survival_weight : ℤ
  pub capabilities : Capabilities

abbrev pub default_config : Config
default_config = record {
  version = pos 1;
  mode = "greedy";
  depth = pos 1;
  seed = pos 0;
  capture_weight = pos 100;
  border_weight = pos 1;
  survival_weight = pos 1;
  capabilities = record { observation = "local"; global_state = false };
}

pub data ConfigFault : Type 0 where
  bad_version bad_mode bad_depth bad_capability : ConfigFault

pub data Normalized : Type 0 where
  normal : Config → Normalized
  faulty : ConfigFault → Normalized

-- The fields that `normalize` fills before and between its tests.
unfoldable pub fill_config : Config → Config
fill_config c = record c {
  version = if eq_ℤ c.version (pos 0) then pos 1 else c.version;
  mode = if str_eq c.mode "" then "greedy" else c.mode;
  depth = if eq_ℤ c.depth (pos 0) then pos 1 else c.depth;
}

abbrev pub no_weights : Config → Bool
no_weights c =
    eq_ℤ c.capture_weight (pos 0) && eq_ℤ c.border_weight (pos 0) && eq_ℤ c.survival_weight (pos 0)

-- The fields that it sets behind the test of the depth.
unfoldable pub settle_config : Config → Config
settle_config c =
    let blank = no_weights c in
    record c {
      depth = if str_eq c.mode "greedy" then pos 1 else c.depth;
      capture_weight = if blank then pos 100 else c.capture_weight;
      border_weight = if blank then pos 1 else c.border_weight;
      survival_weight = if blank then pos 1 else c.survival_weight;
      capabilities = normalized c.capabilities;
    }

-- `Config.normalize`. The fields do not depend on each other, so they are filled at once.
unfoldable pub normalize : Config → Normalized
normalize c₀ =
    let c = fill_config c₀ in
    let n = settle_config c in
    if not (eq_ℤ c.version (pos 1))
    then faulty bad_version
    else if not (str_eq c.mode "greedy") && not (str_eq c.mode "lookahead")
    then faulty bad_mode
    else if ltb_ℤ c.depth (pos 1) || ltb_ℤ (pos 8) c.depth
    then faulty bad_depth
    else if not (str_eq n.capabilities.observation "local")
        && not (str_eq n.capabilities.observation "global")
    then faulty bad_capability
    else normal n

pub record Alternative : Type 0 where
  pub action : Direction
  pub capture : ℤ
  pub border : ℤ
  pub survival : ℤ
  pub lookahead : ℤ
  pub total : ℤ
  pub chosen : Bool
  pub reason : String

-- `RuleProvenance`, without the text of the mask.
pub record RuleProvenance : Type 0 where
  pub version : String
  pub source : String
  pub brain_id : String
  pub brain_version : String
  pub worm_id : String
  pub mask : ℕ
  pub action : Action
  pub seed : ℤ
  pub mode : String
  pub depth : ℤ
  pub capabilities : Capabilities
  pub state_hash : String
  pub tick : ℕ
  pub round : ℕ
  pub alternatives : List Alternative

pub record Decision : Type 0 where
  pub worm_id : String
  pub mask : ℕ
  pub action : Action
  pub alternatives : List Alternative
  pub provenance : RuleProvenance

pub record Planner : Type 0 where
  pub config : Config
  pub calls : ℕ

pub data PlanError : Type 0 where
  unknown_worm frozen_brain known_pattern no_action pending_mismatch out_of_range : PlanError
  engine_error : EngineError → PlanError

pub data Planned (A : Type 0) : Type 0 where
  planned : A → Planned A
  unplanned : PlanError → Planned A

-- `New`
unfoldable pub new_planner : Config → Option Planner
new_planner c = elim (normalize c) [
  | normal n ↦ some (record { config = n; calls = 0 })
  | faulty fault ↦ none
]
