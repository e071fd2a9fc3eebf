-- ===== src/Match/Resume.antt =====
-- `ResumeMatch` of internal/match/match.go. What the store returns, the hashes and the JSON decoders
-- are parameters.
pub mod Chain
use worms_ng.Prelude.{
  Bool, List, Option, String, [], eq_ℤ, false, if◌then◌else◌, none, not, pos, some, str_eq, suc,
  true, ℕ, ℤ, ◌&&◌, ◌==◌, ◌||◌, ◌∷◌,
}
use worms_ng.Engine.Snapshot.{Snapshot, restored, unmarshal_snapshot}
use worms_ng.Engine.Types.{Direction, State, ok}
use worms_ng.Match.{Controller, Match, World, restore_memory}
use worms_ng.Match.Setup.{
  Archive, Config, Found, Setup, new_match, of_found, ready, stops, unverified, ◌>>=◌,
}

-- `persisted`; `memories` are the controllers' states, by slot.
pub record Persisted (S : Type 0) : Type 0 where
  pub engine : Option Snapshot
  pub brain_versions : List String
  pub last_action : Option Direction
  pub last_slot : ℤ
  pub decision : ℕ
  pub pending_deadline : ℕ
  pub memories : ℕ → Option S

-- `transition`: `state` is `none` where it is empty, and `some none` where it is no snapshot.
pub record Transition (S : Type 0) : Type 0 where
  pub state : Option (Option Snapshot)
  pub state_hash : String
  pub persisted : Option (Persisted S)

pub record StoredEvent : Type 0 where
  pub sequence : ℕ
  pub kind : String
  pub payload : String
  pub prev_hash : String
  pub hash : String

pub record StoredSnapshot : Type 0 where
  pub sequence : ℕ
  pub payload : String
  pub hash : String

-- The game with its head.
pub record Head : Type 0 where
  pub id : String
  pub sequence : ℕ
  pub event_hash : String

-- `GetGame`, `VerifyEventChain`, `LoadLatestVerifiedSnapshot`, `ListEvents`, `hashBytes`, `hashEvent`,
-- the decoders of a snapshot's envelope and of an event, the hashes of the engine, and whether
-- RestoreControllerState takes the states.
pub record Vault (S : Type 0) : Type 0 where
  pub head : String → Found Head
  pub chain_fault : String → Option String
  pub snapshot : String → Found StoredSnapshot
  pub events : String → ℕ → Found (List StoredEvent)
  pub hash_bytes : String → String
  pub hash_event : ℕ → String → String → String → String
  pub read_snapshot : String → Option (ℤ × Option (Persisted S))
  pub read_transition : String → Option (Transition S)
  pub digest : Snapshot → String
  pub hash_state : State → String
  pub accepts : List (Option (Controller S)) → (ℕ → Option S) → Bool

-- What a check that fails is answered by.
abbrev pub require : Bool → Setup Unit
require true = ready tt
require false = stops unverified

abbrev pub or_same : {A : Type 0} → Option A → A → A
or_same none p = p
or_same (some p') p = p'

module _ {S : Type 0} (v : Vault S) where
  unfoldable pub restore_engine : Option Snapshot → Setup State
  restore_engine none = stops unverified
  restore_engine (some x) = elim (unmarshal_snapshot v.digest x) [
    | restored s ↦ ready s
    | _ ↦ stops unverified
  ]

  -- The envelope of the snapshot.
  unfoldable pub open_snapshot : StoredSnapshot → Setup (Persisted S)
  open_snapshot x = do
    _ ← require (str_eq (v.hash_bytes x.payload) x.hash)
    elim (v.read_snapshot x.payload) [
      | none ↦ stops unverified
      | some (version, content) ↦
          if eq_ℤ version (pos 1)
          then elim content [ none ↦ stops unverified | some p ↦ ready p ]
          else stops unverified
    ]

  -- The state and the runtime behind an event. An event that is no transition, or has no state,
  -- leaves them.
  unfoldable pub apply_transition :
      Option (Transition S) → State × Persisted S → Setup (State × Persisted S)
  apply_transition none x = ready x
  apply_transition (some t) (s, p) = elim t.state [
    | none ↦ ready (s, p)
    | some engine ↦ do
      s' ← restore_engine engine
      _ ← require (str_eq t.state_hash "" || str_eq (v.hash_state s') t.state_hash)
      ready (s', or_same t.persisted p)
  ]

  unfoldable pub is_next : StoredEvent → ℕ → String → Bool
  is_next e expected prev =
      e.sequence == suc expected
      && str_eq e.prev_hash prev
      && str_eq (v.hash_event e.sequence e.prev_hash e.kind e.payload) e.hash

  -- The loop over the events, from the sequence number and the hash before them.
  unfoldable pub check_events :
      List StoredEvent
      → ℕ
      → String
      → State × Persisted S
      → Setup ((State × Persisted S) × ℕ × String)
  check_events [] expected prev x = ready (x, expected, prev)
  check_events (e ∷ es) expected prev x = require (is_next e expected prev) >>= λ ok.
      apply_transition (v.read_transition e.payload) x >>= λ x'.
      check_events es e.sequence e.hash x'

  abbrev pub first_prev : Head → List StoredEvent → String
  first_prev g [] = g.event_hash
  first_prev g (e ∷ es) = e.prev_hash

  -- The snapshot `x` of the game `g`, and the events behind it.
  unfoldable pub replay_events :
      Config S → Head → StoredSnapshot → Setup (Head × State × Persisted S)
  replay_events c g x = do
    p ← open_snapshot x
    s ← restore_engine p.engine
    events ← of_found (v.events c.game_id x.sequence)
    last ← check_events events x.sequence (first_prev g events) (s, p)
    _ ← require (last.1 == g.sequence && str_eq last.2 g.event_hash)
    ready (g, last.0.0, last.0.1)

  -- The game, with the state and the runtime to go on with.
  unfoldable pub verify_game : Config S → Setup (Head × State × Persisted S)
  verify_game c = do
    _ ← require (c.has_store && not (str_eq c.game_id ""))
    g ← of_found (v.head c.game_id)
    _ ← elim (v.chain_fault c.game_id) [ none ↦ ready tt | some reason ↦ stops unverified ]
    x ← of_found (v.snapshot c.game_id)
    replay_events c g x

  abbrev pub versions_or : List String → List String → List String
  versions_or [] given = given
  versions_or (x ∷ xs) given = x ∷ xs

  -- The memory of a stateful controller whose state was stored.
  abbrev pub recall : Match S → (ℕ → Option S) → ℕ → S
  recall m memories =
      restore_memory m.controllers (λ i. elim (memories i) [ none ↦ m.memory i | some s ↦ s ])
        m.memory

  -- `ResumeMatch`
  unfoldable pub resume_match : World S → Archive S → Config S → Setup (Match S)
  resume_match e a c = do
    (g, s, p) ← verify_game c
    m ← new_match e a (record c {
      initial = s;
      game_id = g.id;
      brain_version_ids = versions_or p.brain_versions c.brain_version_ids;
    })
    _ ← require (v.accepts m.controllers p.memories)
    ready (record m {
      pending_deadline = p.pending_deadline;
      decisions = p.decision;
      last_action = p.last_action;
      last_slot = p.last_slot;
      brain_versions = versions_or p.brain_versions m.brain_versions;
      memory = recall m p.memories;
    })
