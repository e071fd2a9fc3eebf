-- ===== src/Agent/Requests.antt =====
-- `Request` of session.go with a policy that answers in time.
use worms_ng.Prelude.{
  &&-true, Bool-cases, List, Option, String, [], ap, arith, eq_ℤ, eq_ℤ_iff, false, if_elim,
  if◌then◌else◌, inl, inr, is_blank, leb, lookup, lookup-insert_self, none, option_elim, refl, some,
  str_eq, str_eq_iff, str_eq_self, string_eq, subst, sym, true, ℕ, ℤ, ◌<◌, ◌==◌, ◌∙◌, ◌∷◌, ◌≡◌,
}
use worms_ng.Agent.{
  Credentials, PendingDecision, Reply, Session, SessionManager, authorize, log_locked, now, ok,
  record_entry, resolve_locked, ticked,
}
use worms_ng.Agent.Sessions.{
  action_eq, answer_pending, ask_policy, begin_decision, begin_filled, chosen, fill_deadline,
  is_legal, is_resign, is_supported, kind_eq, publish, request_decision, request_refusal,
  submit_decision, submit_valid,
}
use worms_ng.Agent.Sound.{authorize_again, log_locked-sessions}
use worms_ng.Protocol.{
  Action, ActionKind, DecisionOutcome, DecisionRequest, OutcomeKind, action_move, action_resign,
  check_actions, outcome_accepted, outcome_resigned, schema_version, unknown_action,
  validate_action, validate_observation, validate_request, validate_response,
}

log_locked-clock :
    (m : SessionManager) (s : Session) (id : String) (kind : OutcomeKind) (action : Option Action)
    (reason : String)
    → (log_locked m s id kind action reason).clock ≡ m.clock
unfolding log_locked record_entry
log_locked-clock m s id kind action reason =
    option_elim (λ (r : SessionManager). r.clock ≡ m.clock) s.pending (λ e. refl)
      (λ p e.
        if_elim (λ (r : SessionManager). r.clock ≡ m.clock) (str_eq p.request.decision_id id)
          (λ e. refl) (λ e. refl))

kind_eq-true : (j k : ActionKind) → kind_eq j k ≡ true → j ≡ k
kind_eq-true action_move action_move h = refl
kind_eq-true action_resign action_resign h = refl
kind_eq-true (unknown_action j) (unknown_action k) h = ap unknown_action ((str_eq_iff j k).0 h)
kind_eq-true j k h = absurd (ground arith)

action_eq-true : (a b : Action) → action_eq a b ≡ true → a ≡ b
action_eq-true a b h =
    let both = &&-true (kind_eq a.kind b.kind) (eq_ℤ a.direction b.direction) h in
    ground (arith, kind_eq-true a.kind b.kind both.0, (eq_ℤ_iff a.direction b.direction).0 both.1)

-- A legal action of a validated request passes its check.
is_legal-valid :
    (a : Action) (legal : List Action)
    → check_actions legal ≡ none
    → is_legal a legal ≡ true
    → validate_action a ≡ none
unfolding check_actions is_legal
is_legal-valid a [] h l = absurd (ground arith)
is_legal-valid a (b ∷ legal) h l = elim (Bool-cases (action_eq b a)) [
  | inl same ↦ subst (λ x. validate_action x ≡ none) (action_eq-true b a same) (ground arith)
  | inr other ↦ is_legal-valid a legal (ground arith) (ground arith)
]

request_actions :
    (r : DecisionRequest)
    → validate_request r ≡ none
    → check_actions r.observation.legal_actions ≡ none
unfolding validate_request validate_observation
request_actions r h = ground arith

request_id : (r : DecisionRequest) → validate_request r ≡ none → is_blank r.decision_id ≡ false
unfolding validate_request
request_id r h = ground arith

-- `Begin` of a request that names its deadline and passes its tests.
begin_publishes :
    (m : SessionManager) (c : Credentials) (s : Session) (r : DecisionRequest)
    → authorize m c ≡ ok s
    → s.pending ≡ none
    → (r.deadline == 0) ≡ false
    → request_refusal m c.game_id s r ≡ none
    → begin_decision m c r ≡ (publish (ticked m) c.game_id s r, ok tt)
unfolding begin_decision fill_deadline begin_filled publish
begin_publishes m c s r h free due fine =
    rw (h, begin_decision) (rw free (rw (due, fill_deadline) (rw (fine, begin_filled) refl)))

-- The session while the request `r` is pending.
abbrev waiting : SessionManager → Session → DecisionRequest → Session
waiting m s r = record s {
  pending = some (record { request = r; deadline = r.deadline; started = now m });
}

publish-lookup :
    (m : SessionManager) (k : String) (s : Session) (r : DecisionRequest)
    → lookup k (publish m k s r).sessions ≡ some (waiting m s r)
unfolding publish
publish-lookup m k s r =
    ap (lookup k) (log_locked-sessions _ _ _ _ _ _) ∙ lookup-insert_self k _ m.sessions

publish-clock :
    (m : SessionManager) (k : String) (s : Session) (r : DecisionRequest)
    → (publish m k s r).clock ≡ m.clock
unfolding publish
publish-clock m k s r = log_locked-clock _ _ _ _ _ _

abbrev Answered : Action → String → SessionManager × Reply DecisionOutcome → Type 0
Answered a id (m, reply) =
    (o : DecisionOutcome) × ((reply ≡ ok o)
      × (o.action ≡ some a)
      × (o.decision_id ≡ id)
      × (o.outcome ≡ (if is_resign a.kind then outcome_resigned else outcome_accepted)))

supported :
    (k : ActionKind) (d : ℤ)
    → validate_action (record { kind = k; direction = d }) ≡ none
    → is_supported k ≡ true
unfolding validate_action
supported action_move d h = refl
supported action_resign d h = refl
supported (unknown_action k) d h = absurd (ground arith)

response_valid :
    (id : String) (a : Action)
    → is_blank id ≡ false
    → validate_action a ≡ none
    → validate_response (record { version = schema_version; decision_id = id; action = a }) ≡ none
unfolding validate_response
response_valid id a named fine = rw named fine

not_due : (t d : ℕ) → t < d → leb d t ≡ false
not_due t d h = ground arith

-- `Submit` of a legal action while the decision is pending and the clock is before its deadline.
submit_answers :
    (m : SessionManager) (c : Credentials) (s : Session) (p : PendingDecision) (a : Action)
    → authorize m c ≡ ok s
    → s.pending ≡ some p
    → lookup p.request.decision_id s.resolved ≡ none
    → validate_request p.request ≡ none
    → is_legal a p.request.observation.legal_actions ≡ true
    → now m < p.deadline
    → Answered a p.request.decision_id (
        submit_decision m c
          (record { version = schema_version; decision_id = p.request.decision_id; action = a }))
unfolding submit_decision submit_valid answer_pending resolve_locked
submit_answers m c s p a h waits new valid legal early =
    let fine = is_legal-valid a _ (request_actions p.request valid) legal in
    let id = p.request.decision_id in
    rw (h, submit_decision)
      (rw (response_valid id a (request_id p.request valid) fine) (
        rw (new, submit_valid)
          (rw waits (
            rw (supported a.kind a.direction fine) (
              rw (not_due _ _ early) (
                rw (str_eq_self id, answer_pending)
                  (rw legal (elim (Bool-cases (is_resign a.kind)) [
                    | inl gives_up ↦ rw gives_up (_, (refl, refl, refl, refl))
                    | inr moves ↦ rw moves (_, (refl, refl, refl, refl))
                  ]))))))))

request_validated :
    (m : SessionManager) (k : String) (s : Session) (r : DecisionRequest)
    → request_refusal m k s r ≡ none
    → validate_request r ≡ none
unfolding request_refusal
request_validated m k s r h = ground arith

-- Request for an open session with nothing pending, whose request passes the tests of Begin and is
-- not resolved yet, returns the action that the policy chose, as accepted or resigned, if the
-- action is legal for the observation and the clock stays before the deadline.
pub request_decision-answers :
    (m : SessionManager) (c : Credentials) (s : Session) (r : DecisionRequest) (a : Action)
    → authorize m c ≡ ok s
    → s.pending ≡ none
    → lookup r.decision_id s.resolved ≡ none
    → request_refusal m c.game_id s r ≡ none
    → is_legal a r.observation.legal_actions ≡ true
    → ((n : ℕ) → m.clock n < r.deadline)
    → Answered a r.decision_id (request_decision m c r (chosen a))
unfolding request_decision fill_deadline ask_policy
request_decision-answers m c s r a h free new fine legal ahead =
    let due : (r.deadline == 0) ≡ false = ground (arith, ahead 0) in
    let filled : fill_deadline m r ≡ (m, r) = rw (due, fill_deadline) refl in
    let b = publish (ticked m) c.game_id s r in
    let w = waiting (ticked m) s r in
    let again = authorize_again m b c s w h (publish-lookup (ticked m) c.game_id s r) refl refl in
    let early : now b < r.deadline =
      subst (λ (f : ℕ → ℕ). f b.reads < r.deadline) (sym (publish-clock (ticked m) c.game_id s r))
        (ahead b.reads) in
    rw (filled, request_decision)
      (rw (begin_publishes m c s r h free due fine) (
        rw (again, ask_policy)
          (submit_answers b c w _ a again refl new (request_validated m c.game_id s r fine) legal
            early)))
