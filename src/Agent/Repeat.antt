-- ===== src/Agent/Repeat.antt =====
-- A second answer to a decision that `Submit` of session.go has accepted.
use worms_ng.Prelude.{
  ap, insert, lookup, lookup-insert_self, none, refl, some, string_eq, subst, ◌∙◌, ◌≡◌,
}
use worms_ng.Agent.{Credentials, SessionManager, ok}
use worms_ng.Agent.Answers.{Contract, Granted, Judged, ResolvedBy, submit_decision-Contract}
use worms_ng.Agent.Sessions.{duplicate_of, submit_decision, submit_valid}
use worms_ng.Agent.Sound.{authorize_again, log_locked-sessions}
use worms_ng.Protocol.{DecisionOutcome, DecisionResponse, outcome_accepted, validate_response}

second :
    (m m' : SessionManager) (c : Credentials) (r r' : DecisionResponse) (o : DecisionOutcome)
    → Granted m c r m' o
    → validate_response r' ≡ none
    → r'.decision_id ≡ r.decision_id
    → ((submit_decision m' c r').1 ≡ ok (duplicate_of o))
      × ((submit_decision m' c r').0.sessions ≡ m'.sessions)
unfolding submit_decision submit_valid Granted ResolvedBy
second m m' c r r' o g valid same =
    let s = g.0 in
    let granted = g.1.1 in
    let t = record s { pending = none; resolved = insert r.decision_id o s.resolved } in
    let stored : lookup c.game_id m'.sessions ≡ some t = granted.7 in
    let again = authorize_again m m' c s t granted.0 stored refl refl in
    let found : lookup r'.decision_id t.resolved ≡ some o =
      ap (λ id. lookup id t.resolved) same ∙ lookup-insert_self r.decision_id o s.resolved in
    rw (again, submit_decision)
      (rw valid (rw (found, submit_valid) (refl, log_locked-sessions m' t _ _ _ _)))

-- When Submit has accepted a decision, a valid second response to it returns the recorded outcome
-- as a duplicate, and leaves every session as it was.
pub submit_decision-twice :
    (m m' : SessionManager) (c : Credentials) (r r' : DecisionResponse) (o : DecisionOutcome)
    → submit_decision m c r ≡ (m', ok o)
    → o.outcome ≡ outcome_accepted
    → validate_response r' ≡ none
    → r'.decision_id ≡ r.decision_id
    → ((submit_decision m' c r').1 ≡ ok (duplicate_of o))
      × ((submit_decision m' c r').0.sessions ≡ m'.sessions)
unfolding Contract Judged
submit_decision-twice m m' c r r' o h final valid same =
    let judged =
      subst (Judged m c r m' o) final (subst (Contract m c r) h (submit_decision-Contract m c r)) in
    second m m' c r r' o judged.0 valid same
