-- ===== src/Agent/Preserve.antt =====
-- Each operation of the session manager of session.go keeps its invariant.
use worms_ng.Prelude.{
  All, All-insert, All-lookup, Dict, Option, String, arith, contains, false, if_elim, leb, lookup,
  ltb, none, not, option_elim, refl, some, str_eq, str_eq_iff, string_eq, ℕ, ℤ, ◌<◌, ◌==◌, ◌||◌,
  ◌≡◌,
}
use worms_ng.Agent.{
  Credentials, PendingDecision, Policy, Session, SessionError, SessionManager, already_pending,
  authorize, bad_request, deadline_ahead, deadline_over, empty_token, missing_names, no_decision,
  now, outcome_locked, policy_failed, session_exists, ticked, token_failed, unauthorized,
  unknown_session, wrong_game, wrong_worm,
}
use worms_ng.Agent.Sessions.{
  after_refusal, answer_pending, begin_decision, begin_filled, close_session, disconnect,
  fill_deadline, is_legal, is_resign, is_supported, mark_closed, new_session, new_session_manager,
  open_session, publish, request_refusal, resolve_timeout, start_session, submit_decision,
  submit_valid,
}
use worms_ng.Agent.Sound.{
  FinalOutcome, GoodPending, GoodSession, Sound, blank_empty, good_authorized, log_locked-Sound,
  pending_named, reply_elim, resolve_locked-Sound, store-Sound,
}
use worms_ng.Protocol.{
  DecisionRequest, DecisionResponse, Fault, validate_action, validate_request, validate_response,
}

abbrev Keeps {ℓ} : {A : Type ℓ} → SessionManager × A → Type 0
Keeps (m, a) = Sound m

pub new_session_manager-Sound :
    (deadline : ℤ) (clock : ℕ → ℕ) (text_of : Fault → String)
    → Sound (new_session_manager deadline clock text_of)
unfolding Sound new_session_manager
new_session_manager-Sound deadline clock text_of = tt

pub start_session-Sound :
    (m : SessionManager) (game worm : String) (policy : Option Policy) (token : Option String)
    → Sound m
    → Sound (start_session m game worm policy token).0
unfolding start_session open_session GoodSession GoodPending
start_session-Sound m game worm policy token sound =
    option_elim Keeps policy (λ e. sound)
      (λ p e.
        if_elim Keeps (str_eq game "" || str_eq worm "") (λ e. sound)
          (λ named.
            option_elim Keeps token (λ e. sound)
              (λ t e.
                if_elim Keeps (str_eq t "") (λ e. sound)
                  (λ e.
                    if_elim Keeps (contains game m.sessions) (λ e. sound)
                      (λ e.
                        store-Sound m game (new_session game worm p t) sound
                          (refl, ground arith, ground arith, tt, tt))))))

fill_deadline-Sound :
    (m : SessionManager) (r : DecisionRequest) → Sound m → Sound (fill_deadline m r).0
unfolding fill_deadline Sound
fill_deadline-Sound m r sound = if_elim Keeps (r.deadline == 0) (λ e. sound) (λ e. sound)

-- A request without a refusal.
request_refusal-none :
    (m : SessionManager) (k : String) (s : Session) (r : DecisionRequest)
    → request_refusal m k s r ≡ none
    → (validate_request r ≡ none)
      × (r.observation.game_id ≡ k)
      × (r.observation.worm_id ≡ s.worm_id)
      × (now m < r.deadline)
unfolding request_refusal
request_refusal-none m k s r h =
    ground (arith, str_eq_iff r.observation.game_id k, str_eq_iff r.observation.worm_id s.worm_id)

after_refusal-Sound : (m : SessionManager) (e : SessionError) → Sound m → Sound (after_refusal m e)
unfolding after_refusal Sound
after_refusal-Sound m unauthorized sound = sound
after_refusal-Sound m unknown_session sound = sound
after_refusal-Sound m no_decision sound = sound
after_refusal-Sound m deadline_over sound = sound
after_refusal-Sound m deadline_ahead sound = sound
after_refusal-Sound m missing_names sound = sound
after_refusal-Sound m token_failed sound = sound
after_refusal-Sound m empty_token sound = sound
after_refusal-Sound m session_exists sound = sound
after_refusal-Sound m already_pending sound = sound
after_refusal-Sound m wrong_game sound = sound
after_refusal-Sound m wrong_worm sound = sound
after_refusal-Sound m (bad_request fault) sound = sound
after_refusal-Sound m (policy_failed reason) sound = sound

begin_filled-Sound :
    (m : SessionManager) (k : String) (s : Session) (r : DecisionRequest)
    → Sound m
    → GoodSession (k, s)
    → Sound (begin_filled m k s r).0
unfolding begin_filled publish GoodSession GoodPending Sound
begin_filled-Sound m k s r sound good =
    option_elim Keeps (request_refusal m k s r)
      (λ fine.
        let f = request_refusal-none m k s r fine in
        let p : PendingDecision = record {
          request = r;
          deadline = r.deadline;
          started = now (ticked m);
        } in
        log_locked-Sound _ _ _ _ _ _ (
          store-Sound (ticked m) k (record s { pending = some p }) sound
            (good.0, good.1, good.2, (f.0, f.1, f.2, refl), good.4)))
      (λ e h. after_refusal-Sound m e sound)

pub begin_decision-Sound :
    (m : SessionManager) (c : Credentials) (r : DecisionRequest)
    → Sound m
    → Sound (begin_decision m c r).0
unfolding begin_decision
begin_decision-Sound m c r sound =
    reply_elim Keeps (authorize m c) (λ e h. sound)
      (λ s h.
        option_elim Keeps s.pending
          (λ e.
            begin_filled-Sound (fill_deadline m r).0 c.game_id s (fill_deadline m r).1
              (fill_deadline-Sound m r sound) (good_authorized m c s sound h))
          (λ p e. sound))

action_checked :
    (r : DecisionResponse) → validate_response r ≡ none → validate_action r.action ≡ none
unfolding validate_response
action_checked r h = ground arith

response_named :
    (r : DecisionResponse) → validate_response r ≡ none → str_eq r.decision_id "" ≡ false
unfolding validate_response
response_named r h = blank_empty r.decision_id (ground arith)

answer_pending-Sound :
    (m : SessionManager) (k : String) (s : Session) (p : PendingDecision) (r : DecisionResponse)
    → Sound m
    → GoodSession (k, s)
    → s.pending ≡ some p
    → validate_response r ≡ none
    → Sound (answer_pending m k s p r).0
unfolding answer_pending outcome_locked Sound FinalOutcome
answer_pending-Sound m k s p r sound good waits valid =
    if_elim Keeps (not (str_eq r.decision_id p.request.decision_id))
      (λ e. log_locked-Sound (ticked m) s _ _ _ _ sound)
      (λ same.
        if_elim Keeps (not (is_legal r.action p.request.observation.legal_actions))
          (λ e. log_locked-Sound (ticked m) s _ _ _ _ sound)
          (λ legal.
            if_elim Keeps (is_resign r.action.kind)
              (λ e.
                resolve_locked-Sound m k s _ _ _ _ sound good (response_named r valid)
                  (action_checked r valid, e))
              (λ e.
                resolve_locked-Sound m k s _ _ _ _ sound good (response_named r valid)
                  (action_checked r valid, e))))

submit_valid-Sound :
    (m : SessionManager) (k : String) (s : Session) (r : DecisionResponse)
    → Sound m
    → GoodSession (k, s)
    → validate_response r ≡ none
    → Sound (submit_valid m k s r).0
unfolding submit_valid outcome_locked Sound FinalOutcome
submit_valid-Sound m k s r sound good valid =
    option_elim Keeps (lookup r.decision_id s.resolved)
      (λ new.
        option_elim Keeps s.pending (λ e. log_locked-Sound (ticked m) s _ _ _ _ sound)
          (λ p waits.
            if_elim Keeps (not (is_supported r.action.kind))
              (λ e. log_locked-Sound (ticked m) s _ _ _ _ sound)
              (λ e.
                if_elim Keeps (leb p.deadline (now m))
                  (λ late.
                    resolve_locked-Sound (ticked m) k s _ _ _ _ sound good
                      (pending_named k s p good waits) tt)
                  (λ e. answer_pending-Sound (ticked m) k s p r sound good waits valid))))
      (λ prior e. log_locked-Sound m s _ _ _ _ sound)

pub submit_decision-Sound :
    (m : SessionManager) (c : Credentials) (r : DecisionResponse)
    → Sound m
    → Sound (submit_decision m c r).0
unfolding submit_decision outcome_locked Sound
submit_decision-Sound m c r sound =
    reply_elim Keeps (authorize m c) (λ e h. sound)
      (λ s h.
        option_elim Keeps (validate_response r)
          (λ valid. submit_valid-Sound m c.game_id s r sound (good_authorized m c s sound h) valid)
          (λ fault e. log_locked-Sound (ticked m) s _ _ _ _ sound))

pub resolve_timeout-Sound :
    (m : SessionManager) (c : Credentials) → Sound m → Sound (resolve_timeout m c).0
unfolding resolve_timeout Sound FinalOutcome
resolve_timeout-Sound m c sound =
    reply_elim Keeps (authorize m c) (λ e h. sound)
      (λ s h.
        option_elim Keeps s.pending (λ e. sound)
          (λ p waits.
            if_elim Keeps (ltb (now m) p.deadline) (λ e. sound)
              (λ e.
                let good = good_authorized m c s sound h in
                resolve_locked-Sound (ticked m) c.game_id s _ _ _ _ sound good
                  (pending_named c.game_id s p good waits) tt)))

pub disconnect-Sound :
    (m : SessionManager) (c : Credentials) (reason : String)
    → Sound m
    → Sound (disconnect m c reason).0
unfolding disconnect FinalOutcome
disconnect-Sound m c reason sound =
    reply_elim Keeps (authorize m c) (λ e h. sound)
      (λ s h.
        option_elim Keeps s.pending (λ e. sound)
          (λ p waits.
            let good = good_authorized m c s sound h in
            resolve_locked-Sound m c.game_id s _ _ _ _ sound good
              (pending_named c.game_id s p good waits) tt))

mark_closed-Sound :
    (k : String) (sessions : Dict String Session)
    → All GoodSession sessions
    → All GoodSession (mark_closed k sessions)
unfolding mark_closed GoodSession
mark_closed-Sound k sessions h =
    option_elim (All GoodSession) (lookup k sessions) (λ e. h)
      (λ s found. All-insert GoodSession k _ sessions h (All-lookup GoodSession k sessions h found))

pub close_session-Sound :
    (m : SessionManager) (c : Credentials) → Sound m → Sound (close_session m c).0
unfolding close_session Sound FinalOutcome
close_session-Sound m c sound =
    reply_elim Keeps (authorize m c) (λ e h. sound)
      (λ s h.
        let good = good_authorized m c s sound h in
        mark_closed-Sound c.game_id _ (
          option_elim Keeps s.pending (λ e. sound)
            (λ p waits.
              resolve_locked-Sound m c.game_id s _ _ _ _ sound good
                (pending_named c.game_id s p good waits) tt)))
