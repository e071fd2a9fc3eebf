-- ===== src/Agent/Answers.antt =====
-- What `Submit` of session.go answers: when it accepts, what costs no turn, and a second answer.
use worms_ng.Prelude.{
  String, arith, false, if_elim, insert, leb, leb→le, lookup, none, not, option_elim, refl, some,
  str_eq, str_eq_iff, string_eq, true, ◌<◌, ◌≡◌, ◌≤◌,
}
use worms_ng.Agent.{
  Credentials, PendingDecision, Reply, Session, SessionManager, authorize, err, now, ok,
  outcome_locked, resolve_locked, ticked,
}
use worms_ng.Agent.Closed.{resolve_locked-lookup}
use worms_ng.Agent.Sessions.{
  answer_pending, duplicate_of, is_legal, is_resign, is_supported, submit_decision, submit_valid,
}
use worms_ng.Agent.Sound.{log_locked-sessions, reply_elim}
use worms_ng.Protocol.{
  DecisionOutcome, DecisionResponse, OutcomeKind, outcome_accepted, outcome_disconnect,
  outcome_duplicate, outcome_illegal, outcome_malformed, outcome_resigned, outcome_stale,
  outcome_timeout, unknown_outcome, validate_response,
}

-- The pending decision `p` of the session `s` is resolved by `o`.
unfoldable pub ResolvedBy :
    Credentials → Session → String → DecisionOutcome → SessionManager → Type 0
ResolvedBy c s id o m =
    lookup c.game_id m.sessions
    ≡ some (record s { pending = none; resolved = insert id o s.resolved })

-- The response answers the pending decision in time, with one of its legal actions.
unfoldable pub Granted :
    SessionManager → Credentials → DecisionResponse → SessionManager → DecisionOutcome → Type 0
Granted m c r m' o =
    (s : Session) × ((p : PendingDecision) × ((authorize m c ≡ ok s)
        × (s.pending ≡ some p)
        × (r.decision_id ≡ p.request.decision_id)
        × (is_legal r.action p.request.observation.legal_actions ≡ true)
        × (now m < p.deadline)
        × (lookup r.decision_id s.resolved ≡ none)
        × (o.action ≡ some r.action)
        × ResolvedBy c s r.decision_id o m'))

unfoldable pub Expired : SessionManager → Credentials → SessionManager → DecisionOutcome → Type 0
Expired m c m' o =
    (s : Session) × ((p : PendingDecision) × ((authorize m c ≡ ok s)
        × (s.pending ≡ some p)
        × (p.deadline ≤ now m)
        × ResolvedBy c s p.request.decision_id o m'))

unfoldable pub Repeated : SessionManager → Credentials → DecisionResponse → DecisionOutcome → Type 0
Repeated m c r o =
    (s : Session) × ((prior : DecisionOutcome) × ((authorize m c ≡ ok s)
        × (lookup r.decision_id s.resolved ≡ some prior)
        × (o ≡ duplicate_of prior)))

-- What an outcome of `Submit` says, by its kind. The last four leave every session as it was.
unfoldable pub Judged :
    SessionManager
    → Credentials
    → DecisionResponse
    → SessionManager
    → DecisionOutcome
    → OutcomeKind
    → Type 0
Judged m c r m' o outcome_accepted = Granted m c r m' o × (is_resign r.action.kind ≡ false)
Judged m c r m' o outcome_resigned = Granted m c r m' o × (is_resign r.action.kind ≡ true)
Judged m c r m' o outcome_timeout = Expired m c m' o
Judged m c r m' o outcome_duplicate = Repeated m c r o × (m'.sessions ≡ m.sessions)
Judged m c r m' o outcome_stale = m'.sessions ≡ m.sessions
Judged m c r m' o outcome_malformed = m'.sessions ≡ m.sessions
Judged m c r m' o outcome_illegal = m'.sessions ≡ m.sessions
Judged m c r m' o outcome_disconnect = ⊥
Judged m c r m' o (unknown_outcome k) = ⊥

unfoldable pub Contract :
    SessionManager
    → Credentials
    → DecisionResponse
    → SessionManager × Reply DecisionOutcome
    → Type 0
Contract m c r (m', err e) = m' ≡ m
Contract m c r (m', ok o) = Judged m c r m' o o.outcome

answer_pending-Contract :
    (m : SessionManager) (c : Credentials) (s : Session) (p : PendingDecision)
    (r : DecisionResponse)
    → authorize m c ≡ ok s
    → s.pending ≡ some p
    → lookup r.decision_id s.resolved ≡ none
    → now m < p.deadline
    → Contract m c r (answer_pending (ticked m) c.game_id s p r)
unfolding answer_pending outcome_locked resolve_locked Contract Judged Granted ResolvedBy
answer_pending-Contract m c s p r h waits new early =
    if_elim (Contract m c r) (not (str_eq r.decision_id p.request.decision_id))
      (λ e. log_locked-sessions _ s _ _ _ _)
      (λ same.
        if_elim (Contract m c r) (not (is_legal r.action p.request.observation.legal_actions))
          (λ e. log_locked-sessions _ s _ _ _ _)
          (λ legal.
            let id = (str_eq_iff r.decision_id p.request.decision_id).0 (ground (arith, same)) in
            if_elim (Contract m c r) (is_resign r.action.kind)
              (λ e. (
                (
                  s,
                  (
                    p,
                    (
                      h,
                      waits,
                      id,
                      ground (arith, legal),
                      early,
                      new,
                      refl,
                      resolve_locked-lookup (ticked m) c.game_id s _ _ _ _,
                    ),
                  ),
                ),
                e,
              ))
              (λ e. (
                (
                  s,
                  (
                    p,
                    (
                      h,
                      waits,
                      id,
                      ground (arith, legal),
                      early,
                      new,
                      refl,
                      resolve_locked-lookup (ticked m) c.game_id s _ _ _ _,
                    ),
                  ),
                ),
                e,
              ))))

submit_valid-Contract :
    (m : SessionManager) (c : Credentials) (s : Session) (r : DecisionResponse)
    → authorize m c ≡ ok s
    → Contract m c r (submit_valid m c.game_id s r)
unfolding submit_valid outcome_locked Contract Judged Expired Repeated ResolvedBy resolve_locked
submit_valid-Contract m c s r h =
    option_elim (Contract m c r) (lookup r.decision_id s.resolved)
      (λ new.
        option_elim (Contract m c r) s.pending (λ e. log_locked-sessions (ticked m) s _ _ _ _)
          (λ p waits.
            if_elim (Contract m c r) (not (is_supported r.action.kind))
              (λ e. log_locked-sessions (ticked m) s _ _ _ _)
              (λ e.
                if_elim (Contract m c r) (leb p.deadline (now m))
                  (λ late. (
                    s,
                    (
                      p,
                      (
                        h,
                        waits,
                        leb→le _ _ late,
                        resolve_locked-lookup (ticked m) c.game_id s _ _ _ _,
                      ),
                    ),
                  ))
                  (λ early. answer_pending-Contract m c s p r h waits new (ground arith)))))
      (λ prior e. ((s, (prior, (h, e, refl))), log_locked-sessions m s _ _ _ _))

-- Submit keeps its contract on every branch: an error leaves the manager as it was; an accepted or
-- resigned outcome answers the pending decision of the session in time, with one of its legal
-- actions and under its ID, which was not resolved before, and is recorded while nothing stays
-- pending; a timeout means that the deadline has passed; a duplicate repeats the recorded outcome;
-- and a duplicate, stale, malformed or illegal answer leaves every session as it was.
pub submit_decision-Contract :
    (m : SessionManager) (c : Credentials) (r : DecisionResponse)
    → Contract m c r (submit_decision m c r)
unfolding submit_decision outcome_locked Contract Judged
submit_decision-Contract m c r =
    reply_elim (Contract m c r) (authorize m c) (λ e h. refl)
      (λ s h.
        option_elim (Contract m c r) (validate_response r)
          (λ valid. submit_valid-Contract m c s r h)
          (λ fault e. log_locked-sessions (ticked m) s _ _ _ _))
