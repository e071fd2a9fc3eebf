-- ===== src/Match.antt =====
-- internal/match/match.go: a match, its controllers and its runtime. What the store answers, and the
-- texts that the code formats, are parameters. `S` is the memory of a controller.
pub mod Same
pub mod Play
pub mod Rounds
pub mod Alike
pub mod Invariant
pub mod Rollback
pub mod Setup
pub mod Resume
pub mod Adapters
pub mod Tests
use worms_ng.Prelude.{
  Bool, Dict, List, Option, String, [], get_or, if◌then◌else◌, negsuc, none, pos, some, true, ℕ, ℤ,
  ◌+◌, ◌∷◌,
}
use worms_ng.Engine.Types.{
  ControllerKind, Direction, EngineError, Event, State, game_over, no_event,
}
use worms_ng.Protocol.{Action, DecisionRequest, Fault, OutcomeKind}

-- What a controller answers: an action, or an error that may say that its time is over.
pub data Answer : Type 0 where
  picked : Action → Answer
  broke : Bool → String → Answer

-- `Controller`, with its optional name and provenance, and whether its memory can be restored.
pub record Controller (S : Type 0) : Type 0 where
  pub name : Option String
  pub provenance : Option (Dict String String)
  pub stateful : Bool
  pub decide : S → DecisionRequest → S × Answer

pub record Outcome : Type 0 where
  pub decision_id : String
  pub game_id : String
  pub worm_id : String
  pub kind : OutcomeKind
  pub action : Option Action
  pub at : ℕ
  pub reason : String
  pub provenance : Dict String String

-- `Match`. `clock n` is what `m.now` returns on its call `n`, of which `reads` are done; `memory i`
-- belongs to the controller of slot `i`; `decisions` is the field `decision`. The mutex and the
-- fields `persistSnapshots` and `verified`, which these operations do not read, are left out.
pub record Match (S : Type 0) : Type 0 where
  pub has_store : Bool
  pub game_id : String
  pub state : State
  pub controllers : List (Option (Controller S))
  pub memory : ℕ → S
  pub brain_versions : List String
  pub seed : ℤ
  pub deadline : ℕ
  pub clock : ℕ → ℕ
  pub reads : ℕ
  pub last_action : Option Direction
  pub last_slot : ℤ
  pub decisions : ℕ
  pub pending_deadline : ℕ

pub data MatchError : Type 0 where
  finished decision_pending no_pending unknown_worm not_due out_of_range : MatchError
  engine_failed : EngineError → MatchError
  store_failed : String → MatchError
  bad_request bad_action : Fault → MatchError

pub data Reply (A : Type 0) : Type 0 where
  done : A → Reply A
  fails : MatchError → Reply A

-- The store, which writes the match with the events, the outcome and the status or returns an error,
-- and the texts `"%s:%d"`, `"%d"`, of a mask and of a kind.
pub record World (S : Type 0) : Type 0 where
  pub write : Match S → List Event → Option Outcome → String → Option String
  pub numbered : String → ℤ → String
  pub number : ℤ → String
  pub mask_text : ℕ → String
  pub kind_text : ControllerKind → String

module _ {S : Type 0} where
  abbrev pub now : Match S → ℕ
  now m = m.clock m.reads

  abbrev pub ticked : Match S → Match S
  ticked m = record m { reads = m.reads + 1 }

  -- `persist`, `persistOutcome` and `persistAccepted`.
  unfoldable pub persist : World S → Match S → List Event → Option Outcome → String → Option String
  persist e m events outcome status = if m.has_store then e.write m events outcome status else none

  -- `restoreControllerStatesLocked`: the memory of a controller that is not stateful stays.
  -- Restoring a memory does not fail.
  unfoldable pub restore_memory : List (Option (Controller S)) → (ℕ → S) → (ℕ → S) → ℕ → S
  restore_memory controllers saved current i = elim (get_or controllers i none) [
    | none ↦ current i
    | some c ↦ if c.stateful then saved i else current i
  ]

  -- `restoreRuntimeLocked` to the runtime of `before`, which `runtimeSnapshotLocked` has copied.
  unfoldable pub restore_runtime : Match S → Match S → Match S
  restore_runtime before m = record m {
    state = before.state;
    last_action = before.last_action;
    last_slot = before.last_slot;
    decisions = before.decisions;
    pending_deadline = before.pending_deadline;
    memory = restore_memory m.controllers before.memory m.memory;
  }

  -- `controllerLocked`
  unfoldable pub controller_at : Match S → ℤ → Option (Controller S)
  controller_at m (pos i) = get_or m.controllers i none
  controller_at m (negsuc i) = none

  unfoldable pub controller_name : Match S → ℤ → String
  controller_name m slot = elim (controller_at m slot) [
    | none ↦ "human"
    | some c ↦ elim c.name [ none ↦ "human" | some name ↦ name ]
  ]

  -- `controllerProvenance`
  unfoldable pub controller_provenance : Controller S → Dict String String
  controller_provenance c = elim c.provenance [
    | some p ↦ p
    | none ↦ elim c.name [
      | none ↦ ("controller", "controller") ∷ []
      | some name ↦ ("controller", name) ∷ []
    ]
  ]

  -- `statusLocked`
  unfoldable pub status_of : Match S → String
  status_of m =
      if m.state.game_over
      then "finished"
      else elim m.state.pending [ none ↦ "active" | some p ↦ "pending" ]

  -- `persist` behind a change; an error restores the runtime of `before`.
  unfoldable pub keep_or_restore :
      {A : Type 0}
      → World S
      → Match S
      → Match S
      → List Event
      → Option Outcome
      → String
      → A
      → Match S × Reply A
  keep_or_restore e before m events outcome status a = elim (persist e m events outcome status) [
    | none ↦ (m, done a)
    | some reason ↦ (restore_runtime before m, fails (store_failed reason))
  ]

  -- `Stop`
  unfoldable pub stop : World S → Match S → Match S × Reply Unit
  stop e m =
      let s = record m.state { pending = none; game_over = true } in
      let m' = record m { state = s; pending_deadline = 0 } in
      if m.state.game_over
      then (m, done tt)
      else keep_or_restore e m m' (record no_event { kind = "match_stopped" } ∷ []) none "stopped"
          tt
