-- ===== src/Agent/Reach.antt =====
-- The runs of the session manager of session.go: any operations in any order, one at a time.
use worms_ng.Prelude.{
  All-lookup, Option, String, ap, false, lookup, none, refl, some, str_eq, str_eq_iff, string_eq,
  true, ℕ, ℤ, ◌∙◌, ◌≡◌,
}
use worms_ng.Agent.{Credentials, Policy, Session, SessionManager}
use worms_ng.Agent.Preserve.{
  begin_decision-Sound, close_session-Sound, disconnect-Sound, new_session_manager-Sound,
  resolve_timeout-Sound, start_session-Sound, submit_decision-Sound,
}
use worms_ng.Agent.Sessions.{
  begin_decision, close_session, disconnect, new_session_manager, resolve_timeout, start_session,
  submit_decision,
}
use worms_ng.Agent.Sound.{FinalOutcome, GoodOutcome, GoodSession, Sound}
use worms_ng.Protocol.{
  Action, DecisionOutcome, DecisionRequest, DecisionResponse, Fault, OutcomeKind, known_outcome,
  outcome_accepted, outcome_disconnect, outcome_resigned, outcome_timeout, schema_version,
  validate_action, validate_outcome,
}

pub data Step : SessionManager → SessionManager → Type 0 where
  starts :
      (m : SessionManager) (game worm : String) (policy : Option Policy) (token : Option String)
      → Step m (start_session m game worm policy token).0
  begins :
      (m : SessionManager) (c : Credentials) (r : DecisionRequest) → Step m (begin_decision m c r).0
  submits :
      (m : SessionManager) (c : Credentials) (r : DecisionResponse)
      → Step m (submit_decision m c r).0
  times_out : (m : SessionManager) (c : Credentials) → Step m (resolve_timeout m c).0
  disconnects :
      (m : SessionManager) (c : Credentials) (reason : String) → Step m (disconnect m c reason).0
  closes : (m : SessionManager) (c : Credentials) → Step m (close_session m c).0

pub data Reach (m : SessionManager) : SessionManager → Type 0 where
  here : Reach m m
  next : {a b : SessionManager} → Reach m a → Step a b → Reach m b

Step-Sound : {a b : SessionManager} → Step a b → Sound a → Sound b
Step-Sound (starts m game worm policy token) h = start_session-Sound m game worm policy token h
Step-Sound (begins m c r) h = begin_decision-Sound m c r h
Step-Sound (submits m c r) h = submit_decision-Sound m c r h
Step-Sound (times_out m c) h = resolve_timeout-Sound m c h
Step-Sound (disconnects m c reason) h = disconnect-Sound m c reason h
Step-Sound (closes m c) h = close_session-Sound m c h

pub Reach-Sound : {a b : SessionManager} → Sound a → Reach a b → Sound b
Reach-Sound h here = h
Reach-Sound h (next run step) = Step-Sound step (Reach-Sound h run)

final_cases :
    (k : OutcomeKind) (a : Option Action)
    → FinalOutcome k a
    → (known_outcome k ≡ true) × (elim a [ none ↦ none | some a ↦ validate_action a ] ≡ none)
unfolding FinalOutcome known_outcome
final_cases outcome_accepted (some a) h = (refl, h.0)
final_cases outcome_resigned (some a) h = (refl, h.0)
final_cases outcome_timeout none h = (refl, refl)
final_cases outcome_disconnect none h = (refl, refl)
final_cases k a h = elim h [ ]

-- A good outcome passes its check.
validate_good :
    (k worm id : String) (o : DecisionOutcome)
    → str_eq k "" ≡ false
    → str_eq worm "" ≡ false
    → GoodOutcome k worm (id, o)
    → validate_outcome o ≡ none
unfolding validate_outcome GoodOutcome
validate_good k worm id o hk hw h =
    let final = final_cases o.outcome o.action h.5 in
    let version : str_eq o.version schema_version ≡ true = (str_eq_iff _ _).1 h.0 in
    let game : str_eq o.game_id "" ≡ false = ap (λ s. str_eq s "") h.1 ∙ hk in
    let worm' : str_eq o.worm_id "" ≡ false = ap (λ s. str_eq s "") h.2 ∙ hw in
    let id' : str_eq o.decision_id "" ≡ false = ap (λ s. str_eq s "") h.3 ∙ h.4 in
    rw version (rw game (rw worm' (rw id' (rw (final.0) final.1))))

-- In a session manager that any operations have reached from a new one, every recorded outcome
-- passes its check, and carries the game, the worm and the decision under which it is stored.
pub Reach-validate_outcome :
    (deadline : ℤ) (clock : ℕ → ℕ) (text_of : Fault → String) (m : SessionManager) (k id : String)
    (s : Session) (o : DecisionOutcome)
    → Reach (new_session_manager deadline clock text_of) m
    → lookup k m.sessions ≡ some s
    → lookup id s.resolved ≡ some o
    → (validate_outcome o ≡ none) × (o.game_id ≡ k) × (o.worm_id ≡ s.worm_id) × (o.decision_id ≡ id)
unfolding GoodSession GoodOutcome Sound
Reach-validate_outcome deadline clock text_of m k id s o run found recorded =
    let sound = Reach-Sound (new_session_manager-Sound deadline clock text_of) run in
    let good = All-lookup GoodSession k m.sessions sound found in
    let entry = All-lookup (GoodOutcome k s.worm_id) id s.resolved good.4 recorded in
    (validate_good k s.worm_id id o good.1 good.2 entry, entry.1, entry.2, entry.3)
