-- ===== src/Agent/Sessions.antt =====
-- The operations of the session manager in session.go.
use worms_ng.Prelude.{
  Bool, Dict, List, Option, String, [], any, contains, eq_ℤ, false, if◌then◌else◌, insert, leb,
  leb_ℤ, lookup, ltb, none, not, pos, pos_part, some, str_eq, string_eq, true, ℕ, ℤ, ◌&&◌, ◌+◌,
  ◌==◌, ◌||◌,
}
use worms_ng.Agent.{
  Credentials, PendingDecision, Policy, Reply, Session, SessionError, SessionManager,
  already_pending, authorize, bad_request, deadline_ahead, deadline_over, empty_token, err,
  log_locked, missing_names, no_decision, now, ok, outcome_locked, policy_failed, resolve_locked,
  session_exists, ticked, token_failed, wrong_game, wrong_worm,
}
use worms_ng.Protocol.{
  Action, ActionKind, DecisionOutcome, DecisionRequest, DecisionResponse, Fault, action_move,
  action_resign, outcome_accepted, outcome_disconnect, outcome_duplicate, outcome_illegal,
  outcome_malformed, outcome_resigned, outcome_stale, outcome_timeout, schema_version,
  unknown_action, unknown_outcome, validate_request, validate_response,
}

-- `NewSessionManager` with a clock; a deadline that is not positive stands for five seconds.
unfoldable pub new_session_manager : ℤ → (ℕ → ℕ) → (Fault → String) → SessionManager
new_session_manager deadline clock text_of = record {
  sessions = [];
  default_deadline = if leb_ℤ deadline (pos 0) then 5000000000 else pos_part deadline;
  clock = clock;
  reads = 0;
  text_of = text_of;
  log = [];
}

abbrev pub new_session : String → String → Policy → String → Session
new_session game worm policy token = record {
  game_id = game;
  worm_id = worm;
  credential = token;
  policy = policy;
  closed = false;
  pending = none;
  resolved = [];
}

-- The part of `Start` behind the tests of its arguments; `token` is what `newToken` returns, `none`
-- for an error.
unfoldable pub open_session :
    SessionManager → String → String → Policy → Option String → SessionManager × Reply Credentials
open_session m game worm policy token = elim token [
  | none ↦ (m, err token_failed)
  | some t ↦
      if str_eq t ""
      then (m, err empty_token)
      else if contains game m.sessions
      then (m, err session_exists)
      else (
        record m { sessions = insert game (new_session game worm policy t) m.sessions },
        ok (record { game_id = game; token = t }),
      )
]

-- `Start`
unfoldable pub start_session :
    SessionManager
    → String
    → String
    → Option Policy
    → Option String
    → SessionManager × Reply Credentials
start_session m game worm policy token = elim policy [
  | none ↦ (m, err missing_names)
  | some p ↦
      if str_eq game "" || str_eq worm ""
      then (m, err missing_names)
      else open_session m game worm p token
]

-- `if request.Deadline.IsZero() { request.Deadline = m.now().Add(m.defaultDeadline) }`
unfoldable pub fill_deadline : SessionManager → DecisionRequest → SessionManager × DecisionRequest
fill_deadline m r =
    if r.deadline == 0
    then (ticked m, record r { deadline = now m + m.default_deadline })
    else (m, r)

-- The tests of a request whose deadline is filled; the last one reads the clock.
unfoldable pub request_refusal :
    SessionManager → String → Session → DecisionRequest → Option SessionError
request_refusal m k s r = elim (validate_request r) [
  | some fault ↦ some (bad_request fault)
  | none ↦
      if not (str_eq r.observation.game_id k)
      then some wrong_game
      else if not (str_eq r.observation.worm_id s.worm_id)
      then some wrong_worm
      else if not (ltb (now m) r.deadline)
      then some deadline_over
      else none
]

-- The end of `Begin`: the request is pending, and is logged. The tests have read the clock once.
unfoldable pub publish : SessionManager → String → Session → DecisionRequest → SessionManager
publish m k s r =
    let p : PendingDecision = record { request = r; deadline = r.deadline; started = now m } in
    let s' = record s { pending = some p } in
    log_locked (record (ticked m) { sessions = insert k s' m.sessions }) s' r.decision_id
      (unknown_outcome "pending") none ""

-- How often a refused request has read the clock: only the test of the deadline reads it.
unfoldable pub after_refusal : SessionManager → SessionError → SessionManager
after_refusal m deadline_over = ticked m
after_refusal m e = m

unfoldable pub begin_filled :
    SessionManager → String → Session → DecisionRequest → SessionManager × Reply Unit
begin_filled m k s r = elim (request_refusal m k s r) [
  | some e ↦ (after_refusal m e, err e)
  | none ↦ (publish (ticked m) k s r, ok tt)
]

-- `Begin`
unfoldable pub begin_decision :
    SessionManager → Credentials → DecisionRequest → SessionManager × Reply Unit
begin_decision m c r = elim (authorize m c) [
  | err e ↦ (m, err e)
  | ok s ↦ elim s.pending [
    | some p ↦ (m, err already_pending)
    | none ↦ let filled = fill_deadline m r in begin_filled filled.0 c.game_id s filled.1
  ]
]

-- `isLegal` of policy.go
abbrev pub kind_eq : ActionKind → ActionKind → Bool
kind_eq action_move action_move = true
kind_eq action_resign action_resign = true
kind_eq (unknown_action j) (unknown_action k) = str_eq j k
kind_eq j k = false

abbrev pub action_eq : Action → Action → Bool
action_eq a b = kind_eq a.kind b.kind && eq_ℤ a.direction b.direction

unfoldable pub is_legal : Action → List Action → Bool
is_legal a legal = any (λ b. action_eq b a) legal

abbrev pub is_resign : ActionKind → Bool
is_resign action_resign = true
is_resign k = false

abbrev pub is_supported : ActionKind → Bool
is_supported (unknown_action k) = false
is_supported k = true

-- The part of `Submit` behind the deadline, for the pending decision `p`.
unfoldable pub answer_pending :
    SessionManager
    → String
    → Session
    → PendingDecision
    → DecisionResponse
    → SessionManager × Reply DecisionOutcome
answer_pending m k s p r =
    if not (str_eq r.decision_id p.request.decision_id)
    then outcome_locked m s r.decision_id outcome_stale none
        "decision ID does not match pending turn"
    else if not (is_legal r.action p.request.observation.legal_actions)
    then outcome_locked m s r.decision_id outcome_illegal none
        "action is not legal for pending observation"
    else if is_resign r.action.kind
    then resolve_locked m k s r.decision_id outcome_resigned (some r.action) "agent resigned"
    else resolve_locked m k s r.decision_id outcome_accepted (some r.action) ""

-- The outcome of a decision that was resolved before.
abbrev pub duplicate_of : DecisionOutcome → DecisionOutcome
duplicate_of prior = record prior {
  outcome = outcome_duplicate;
  reason = "decision was already resolved";
}

-- `Submit` for a session and a response that passes its check.
unfoldable pub submit_valid :
    SessionManager → String → Session → DecisionResponse → SessionManager × Reply DecisionOutcome
submit_valid m k s r = elim (lookup r.decision_id s.resolved) [
  | some prior ↦ (
    log_locked m s r.decision_id outcome_duplicate (some r.action) "decision was already resolved",
    ok (duplicate_of prior),
  )
  | none ↦ elim s.pending [
    | none ↦ outcome_locked m s r.decision_id outcome_stale none "no decision is pending"
    | some p ↦
        if not (is_supported r.action.kind)
        then outcome_locked m s r.decision_id outcome_malformed none "unsupported action"
        else if leb p.deadline (now m)
        then resolve_locked (ticked m) k s p.request.decision_id outcome_timeout none
            "deadline expired"
        else answer_pending (ticked m) k s p r
  ]
]

-- `Submit`
unfoldable pub submit_decision :
    SessionManager → Credentials → DecisionResponse → SessionManager × Reply DecisionOutcome
submit_decision m c r = elim (authorize m c) [
  | err e ↦ (m, err e)
  | ok s ↦ elim (validate_response r) [
    | some fault ↦ outcome_locked m s r.decision_id outcome_malformed none (m.text_of fault)
    | none ↦ submit_valid m c.game_id s r
  ]
]

-- `ResolveTimeout`
unfoldable pub resolve_timeout :
    SessionManager → Credentials → SessionManager × Reply DecisionOutcome
resolve_timeout m c = elim (authorize m c) [
  | err e ↦ (m, err e)
  | ok s ↦ elim s.pending [
    | none ↦ (m, err no_decision)
    | some p ↦
        if ltb (now m) p.deadline
        then (ticked m, err deadline_ahead)
        else resolve_locked (ticked m) c.game_id s p.request.decision_id outcome_timeout none
            "deadline expired"
  ]
]

-- `Disconnect`
unfoldable pub disconnect :
    SessionManager → Credentials → String → SessionManager × Reply DecisionOutcome
disconnect m c reason = elim (authorize m c) [
  | err e ↦ (m, err e)
  | ok s ↦ elim s.pending [
    | none ↦ (m, err no_decision)
    | some p ↦ resolve_locked m c.game_id s p.request.decision_id outcome_disconnect none reason
  ]
]

-- `s.closed = true` of the session under the key `k`.
unfoldable pub mark_closed : String → Dict String Session → Dict String Session
mark_closed k sessions = elim (lookup k sessions) [
  | none ↦ sessions
  | some s ↦ insert k (record s { closed = true }) sessions
]

-- `Close`
unfoldable pub close_session : SessionManager → Credentials → SessionManager × Reply Unit
close_session m c = elim (authorize m c) [
  | err e ↦ (m, err e)
  | ok s ↦
      let ended : SessionManager × Reply DecisionOutcome = elim s.pending [
        | none ↦ (m, err no_decision)
        | some p ↦
            resolve_locked m c.game_id s p.request.decision_id outcome_disconnect none
              "session closed"
      ] in
      (record ended.0 { sessions = mark_closed c.game_id ended.0.sessions }, ok tt)
]

-- What the policy answers in `Request`.
pub data Answer : Type 0 where
  chosen : Action → Answer
  failed : String → Answer

-- The part of `Request` behind `Begin`, whose result is given.
unfoldable pub ask_policy :
    SessionManager × Reply Unit
    → Credentials
    → DecisionRequest
    → Answer
    → SessionManager × Reply DecisionOutcome
ask_policy (m, err e) c r answer = (m, err e)
ask_policy (m, ok _) c r answer = elim (authorize m c) [
  | err e ↦ (m, err e)
  | ok s ↦ elim answer [
    | failed reason ↦ ((disconnect m c reason).0, err (policy_failed reason))
    | chosen a ↦
        submit_decision m c
          (record { version = schema_version; decision_id = r.decision_id; action = a })
  ]
]

-- `Request`, in which no other operation runs between `Begin` and the rest.
unfoldable pub request_decision :
    SessionManager → Credentials → DecisionRequest → Answer → SessionManager × Reply DecisionOutcome
request_decision m c r answer =
    let filled = fill_deadline m r in
    ask_policy (begin_decision filled.0 c filled.1) c filled.1 answer
