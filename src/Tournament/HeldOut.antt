-- ===== src/Tournament/HeldOut.antt =====
-- `EvaluateHeldOut` of tournament.go: frozen rule tables on cases that they were not trained on, with
-- the check of the frozen versions.
-- The hash of the tables and what the store holds are parameters.
pub mod Cases
pub mod Frozen
pub mod Passes
use worms_ng.Prelude.{
  Bool, Dict, List, Option, String, [], eq_ℤ, false, get_elem?, if◌then◌else◌, is_empty, length,
  map, none, not, pos, some, str_eq, suc, ℕ, ℤ, ◌&&◌, ◌+ℤ◌, ◌==◌, ◌||◌, ◌∷◌,
}
use worms_ng.Engine.Moves.WellFormed.{completed}
use worms_ng.Engine.Rules.{RuleTable}
use worms_ng.Engine.Types.{State, Worm}
use worms_ng.Match.{Controller, MatchError}
use worms_ng.Match.Setup.{Config, SetupError}
use worms_ng.Prelude.Bits.{sweep}
use worms_ng.Tournament.{MatchReport, Office}

pub record HeldOutCase (S : Type 0) : Type 0 where
  pub name : String
  pub has_store : Bool
  pub state : State
  pub controllers : List (Option (Controller S))
  pub seed : ℤ
  pub training_seeds : List ℤ
  pub brain_version_id : String
  pub brain_version_ids : List String
  pub deadline : ℤ
  pub max_turns : ℤ

-- `Evaluation`; the texts of its errors are in the fault that is returned.
pub record Evaluation : Type 0 where
  pub cases : ℕ
  pub passed : Bool
  pub rule_hashes : Dict String String
  pub results : List MatchReport
  pub wins : Dict String ℕ
  pub ties : ℕ
  pub completed : ℕ

pub data HeldOutFault : Type 0 where
  trained_seed versions_required unknown_version mutable_slot unknown_brain : HeldOutFault
  mutable_brain unreadable_rules other_rules other_lineage changed_rules : HeldOutFault
  match_refused : SetupError → HeldOutFault
  stop_refused resolve_refused : MatchError → HeldOutFault

-- A stored version: its brain, its table if it can be read, and the hash of its lineage or nothing.
pub record FrozenVersion : Type 0 where
  pub brain_id : String
  pub rules : Option RuleTable
  pub rules_hash : String

-- `GetBrainVersion`, whether a brain is frozen, `RulesHash`, and the clock of the matches.
pub record Examiner (S : Type 0) : Type 0 where
  pub office : Office S
  pub version : String → Option FrozenVersion
  pub frozen : String → Option Bool
  pub rules_hash : State → String
  pub clock : ℕ → ℕ

-- Whether two tables have the same 64 entries.
unfoldable pub same_rules : RuleTable → RuleTable → Bool
same_rules r r' = sweep 64 (λ m. eq_ℤ (r m) (r' m))

module _ {S : Type 0} where
  abbrev pub version_ids : HeldOutCase S → List String
  version_ids c =
      if is_empty c.brain_version_ids && not (str_eq c.brain_version_id "")
      then c.brain_version_id ∷ []
      else c.brain_version_ids

  -- One round of the loop of `verifyFrozenVersions`, for the worm in the slot.
  unfoldable pub verify_version : Examiner S → String → String → Option Worm → Option HeldOutFault
  verify_version x expected id slot = elim (x.version id) [
    | none ↦ some unknown_version
    | some v ↦ elim slot [
      | none ↦ some mutable_slot
      | some w ↦ if not w.frozen then some mutable_slot else elim (x.frozen v.brain_id) [
        | none ↦ some unknown_brain
        | some frozen ↦ if not frozen then some mutable_brain else elim v.rules [
          | none ↦ some unreadable_rules
          | some rules ↦
              if not (same_rules rules w.rules)
              then some other_rules
              else if not (str_eq v.rules_hash "") && not (str_eq v.rules_hash expected)
              then some other_lineage
              else none
        ]
      ]
    ]
  ]

  unfoldable pub verify_versions :
      Examiner S → String → List String → ℕ → List Worm → Option HeldOutFault
  verify_versions x expected [] i ws = none
  verify_versions x expected (id ∷ ids) i ws =
      let rest = verify_versions x expected ids (suc i) ws in
      elim (verify_version x expected id (get_elem? ws i)) [ none ↦ rest | some fault ↦ some fault ]

  -- `verifyFrozenVersions`
  unfoldable pub verify_frozen : Examiner S → HeldOutCase S → String → Option HeldOutFault
  verify_frozen x c expected =
      let ids = version_ids c in
      if is_empty ids
      then none
      else if not c.has_store || not (length ids == length c.state.worms)
      then some versions_required
      else verify_versions x expected ids 0 c.state.worms

  -- The controllers: a missing one plays at random.
  unfoldable pub fill_controllers :
      Office S → ℤ → ℕ → List (Option (Controller S)) → List Worm → List (Option (Controller S))
  fill_controllers o seed j cs [] = cs
  fill_controllers o seed j [] (w ∷ ws) = []
  fill_controllers o seed j (c ∷ cs) (w ∷ ws) =
      some (elim c [ none ↦ o.random (seed +ℤ pos j) | some c' ↦ c' ])
      ∷ fill_controllers o seed (suc j) cs ws

  abbrev pub case_config : Examiner S → HeldOutCase S → Config S
  case_config x c = record {
    has_store = false;
    game_id = "";
    previous_game_id = "";
    profile_ids = [];
    brain_version_id = "";
    brain_version_ids = [];
    initial = c.state;
    controllers =
        fill_controllers x.office c.seed 0
          (if is_empty c.controllers then map (λ w. none) c.state.worms else c.controllers)
          c.state.worms;
    memory = x.office.memory;
    seed = c.seed;
    deadline = c.deadline;
    clock = x.clock;
  }
