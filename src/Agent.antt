-- ===== src/Agent.antt =====
-- internal/agent/session.go: the sessions of external agents, one decision at a time for a game. The
-- lock makes each operation one step. The clock is read in turn, and an error's text is a parameter.
pub mod Tests
pub mod Sessions
pub mod Sound
pub mod Preserve
pub mod Reach
pub mod Frame
pub mod Closed
pub mod Answers
pub mod Repeat
pub mod Requests
pub mod Policies
use worms_ng.Prelude.{
  Bool, Dict, List, Option, String, [], if◌then◌else◌, insert, lookup, none, not, pos, some, str_eq,
  string_eq, ℕ, ℤ, ◌++◌, ◌+◌, ◌-ℤ◌, ◌||◌, ◌∷◌,
}
use worms_ng.Protocol.{Action, DecisionOutcome, DecisionRequest, Fault, OutcomeKind, schema_version}

-- A policy as the manager sees it: its name, and its provenance if it has one.
pub record Policy : Type 0 where
  pub name : String
  pub provenance : Option (Dict String String)

pub record Credentials : Type 0 where
  pub game_id : String
  pub token : String

pub record PendingDecision : Type 0 where
  pub request : DecisionRequest
  pub deadline : ℕ
  pub started : ℕ

pub record Session : Type 0 where
  pub game_id : String
  pub worm_id : String
  pub credential : String
  pub policy : Policy
  pub closed : Bool
  pub pending : Option PendingDecision
  pub resolved : Dict String DecisionOutcome

-- `LogEntry` of log.go. Its event is the text of its outcome.
pub record LogEntry : Type 0 where
  pub version : String
  pub at : ℕ
  pub game_id : String
  pub worm_id : String
  pub worm_instance_id : String
  pub brain_id : String
  pub brain_version : String
  pub observation_key : String
  pub scores : Dict String ℤ
  pub decision_id : String
  pub outcome : OutcomeKind
  pub action : Option Action
  pub latency : ℤ
  pub reason : String
  pub policy : String
  pub provenance : Dict String String

-- The manager. `clock n` is what `m.now` returns on its call `n`, of which `reads` are done; `log`
-- holds what `Record` was given.
pub record SessionManager : Type 0 where
  pub sessions : Dict String Session
  pub default_deadline : ℕ
  pub clock : ℕ → ℕ
  pub reads : ℕ
  pub text_of : Fault → String
  pub log : List LogEntry

pub data SessionError : Type 0 where
  unauthorized unknown_session no_decision deadline_over deadline_ahead : SessionError
  missing_names token_failed empty_token session_exists already_pending : SessionError
  wrong_game wrong_worm : SessionError
  bad_request : Fault → SessionError
  policy_failed : String → SessionError

pub data Reply (A : Type 0) : Type 0 where
  ok : A → Reply A
  err : SessionError → Reply A

abbrev pub now : SessionManager → ℕ
now m = m.clock m.reads

abbrev pub ticked : SessionManager → SessionManager
ticked m = record m { reads = m.reads + 1 }

-- `copyStrings` and the loop `entry.Provenance[key] = value`, a write for each entry.
unfoldable pub write_all : Dict String String → Dict String String → Dict String String
write_all [] into = into
write_all ((k, v) ∷ entries) into = write_all entries (insert k v into)

unfoldable pub copy_scores : Dict String ℤ → Dict String ℤ → Dict String ℤ
copy_scores [] into = into
copy_scores ((k, v) ∷ entries) into = copy_scores entries (insert k v into)

abbrev pub provenance_of : Policy → Dict String String
provenance_of p = elim p.provenance [ none ↦ [] | some entries ↦ entries ]

-- The entry before its provenance is completed.
abbrev pub plain_entry : Session → ℕ → String → OutcomeKind → Option Action → String → LogEntry
plain_entry s at' id kind action reason = record {
  version = schema_version;
  at = at';
  game_id = s.game_id;
  worm_id = s.worm_id;
  worm_instance_id = "";
  brain_id = "";
  brain_version = "";
  observation_key = "";
  scores = [];
  decision_id = id;
  outcome = kind;
  action = action;
  latency = pos 0;
  reason = reason;
  policy = s.policy.name;
  provenance = [];
}

abbrev pub detailed_entry : LogEntry → PendingDecision → ℕ → LogEntry
detailed_entry e p at' =
    let o = p.request.observation in
    record e {
      worm_instance_id = o.worm_instance_id;
      brain_id = o.brain_id;
      brain_version = o.brain_version;
      observation_key = o.pattern_key;
      scores = copy_scores o.scores [];
      provenance = write_all o.provenance [];
      latency = pos at' -ℤ pos p.started;
    }

-- `m.logger.Record`, behind the provenance of the policy.
unfoldable pub record_entry : SessionManager → Session → LogEntry → SessionManager
record_entry m s e = record m {
  log = m.log ++ (record e { provenance = write_all (provenance_of s.policy) e.provenance } ∷ []);
}

-- `logLocked`
unfoldable pub log_locked :
    SessionManager → Session → String → OutcomeKind → Option Action → String → SessionManager
log_locked m s id kind action reason =
    let e = plain_entry s (now m) id kind action reason in
    let m' = ticked m in
    elim s.pending [
      | none ↦ record_entry m' s e
      | some p ↦
          if str_eq p.request.decision_id id
          then record_entry (ticked m') s (detailed_entry e p (now m'))
          else record_entry m' s e
    ]

abbrev pub outcome_of :
    SessionManager → Session → String → OutcomeKind → Option Action → String → DecisionOutcome
outcome_of m s id kind action reason = record {
  version = schema_version;
  game_id = s.game_id;
  worm_id = s.worm_id;
  decision_id = id;
  outcome = kind;
  action = action;
  at = now m;
  reason = reason;
}

-- `outcomeLocked`
unfoldable pub outcome_locked :
    SessionManager
    → Session
    → String
    → OutcomeKind
    → Option Action
    → String
    → SessionManager × Reply DecisionOutcome
outcome_locked m s id kind action reason =
    (log_locked (ticked m) s id kind action reason, ok (outcome_of m s id kind action reason))

-- `resolveLocked` of the session under the key `k`.
unfoldable pub resolve_locked :
    SessionManager
    → String
    → Session
    → String
    → OutcomeKind
    → Option Action
    → String
    → SessionManager × Reply DecisionOutcome
resolve_locked m k s id kind action reason =
    let o = outcome_of m s id kind action reason in
    let s' = record s { pending = none; resolved = insert id o s.resolved } in
    let m' = log_locked (ticked m) s id kind action reason in
    (record m' { sessions = insert k s' m'.sessions }, ok o)

-- `authorizeLocked`
unfoldable pub authorize : SessionManager → Credentials → Reply Session
authorize m c =
    if str_eq c.game_id "" || str_eq c.token ""
    then err unauthorized
    else elim (lookup c.game_id m.sessions) [
      | none ↦ err unknown_session
      | some s ↦
          if not (str_eq s.credential c.token)
          then err unauthorized
          else if s.closed
          then err unknown_session
          else ok s
    ]
