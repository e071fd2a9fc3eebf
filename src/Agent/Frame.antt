-- ===== src/Agent/Frame.antt =====
-- What an operation of session.go leaves alone: the sessions of other games.
use worms_ng.Prelude.{
  Dict, Option, String, ap, contains, if_elim, insert, leb, lookup, lookup-insert_ne, ltb, not,
  option_elim, refl, str_eq, string_eq, subst, ◌==◌, ◌||◌, ◌∙◌, ◌≡◌, ◌≢◌,
}
use worms_ng.Agent.{
  Credentials, PendingDecision, Policy, Session, SessionError, SessionManager, already_pending,
  authorize, bad_request, deadline_ahead, deadline_over, empty_token, log_locked, missing_names,
  no_decision, now, outcome_locked, policy_failed, resolve_locked, session_exists, ticked,
  token_failed, unauthorized, unknown_session, wrong_game, wrong_worm,
}
use worms_ng.Agent.Sessions.{
  after_refusal, answer_pending, begin_decision, begin_filled, close_session, disconnect,
  fill_deadline, is_legal, is_resign, is_supported, mark_closed, open_session, publish,
  request_refusal, resolve_timeout, start_session, submit_decision, submit_valid,
}
use worms_ng.Agent.Sound.{log_locked-sessions, reply_elim}
use worms_ng.Protocol.{Action, DecisionRequest, DecisionResponse, OutcomeKind, validate_response}

-- The sessions under other keys than `k` are those of `before`.
unfoldable pub OthersKept : String → Dict String Session → SessionManager → Type 0
OthersKept k before m = (g : String) → k ≢ g → lookup g m.sessions ≡ lookup g before

abbrev Frame {ℓ} : {A : Type ℓ} → String → Dict String Session → SessionManager × A → Type 0
Frame k before (m, a) = OthersKept k before m

others_same : (k : String) (m : SessionManager) → OthersKept k m.sessions m
unfolding OthersKept
others_same k m g ne = refl

others_log :
    (k : String) (m : SessionManager) (s : Session) (id : String) (kind : OutcomeKind)
    (action : Option Action) (reason : String)
    → OthersKept k m.sessions (log_locked m s id kind action reason)
unfolding OthersKept
others_log k m s id kind action reason g ne =
    ap (lookup g) (log_locked-sessions m s id kind action reason)

others_insert :
    (k : String) (before : Dict String Session) (m : SessionManager) (s : Session)
    → OthersKept k before m
    → OthersKept k before (record m { sessions = insert k s m.sessions })
unfolding OthersKept
others_insert k before m s h g ne = lookup-insert_ne g k s m.sessions ne ∙ h g ne

others_resolve :
    (m : SessionManager) (k : String) (s : Session) (id : String) (kind : OutcomeKind)
    (action : Option Action) (reason : String)
    → OthersKept k m.sessions (resolve_locked m k s id kind action reason).0
unfolding resolve_locked
others_resolve m k s id kind action reason =
    others_insert k m.sessions (log_locked (ticked m) s id kind action reason) _
      (others_log k (ticked m) s id kind action reason)

pub start_session-OthersKept :
    (m : SessionManager) (game worm : String) (policy : Option Policy) (token : Option String)
    → OthersKept game m.sessions (start_session m game worm policy token).0
unfolding start_session open_session
start_session-OthersKept m game worm policy token =
    let same = others_same game m in
    option_elim (Frame game m.sessions) policy (λ e. same)
      (λ p e.
        if_elim (Frame game m.sessions) (str_eq game "" || str_eq worm "") (λ e. same)
          (λ named.
            option_elim (Frame game m.sessions) token (λ e. same)
              (λ t e.
                if_elim (Frame game m.sessions) (str_eq t "") (λ e. same)
                  (λ e.
                    if_elim (Frame game m.sessions) (contains game m.sessions) (λ e. same)
                      (λ e. others_insert game m.sessions m _ same)))))

after_refusal-sessions :
    (m : SessionManager) (e : SessionError) → (after_refusal m e).sessions ≡ m.sessions
unfolding after_refusal
after_refusal-sessions m unauthorized = refl
after_refusal-sessions m unknown_session = refl
after_refusal-sessions m no_decision = refl
after_refusal-sessions m deadline_over = refl
after_refusal-sessions m deadline_ahead = refl
after_refusal-sessions m missing_names = refl
after_refusal-sessions m token_failed = refl
after_refusal-sessions m empty_token = refl
after_refusal-sessions m session_exists = refl
after_refusal-sessions m already_pending = refl
after_refusal-sessions m wrong_game = refl
after_refusal-sessions m wrong_worm = refl
after_refusal-sessions m (bad_request fault) = refl
after_refusal-sessions m (policy_failed reason) = refl

fill_deadline-sessions :
    (m : SessionManager) (r : DecisionRequest) → (fill_deadline m r).0.sessions ≡ m.sessions
unfolding fill_deadline
fill_deadline-sessions m r =
    if_elim (λ (x : SessionManager × DecisionRequest). x.0.sessions ≡ m.sessions) (r.deadline == 0)
      (λ e. refl) (λ e. refl)

begin_filled-OthersKept :
    (m : SessionManager) (k : String) (s : Session) (r : DecisionRequest)
    → OthersKept k m.sessions (begin_filled m k s r).0
unfolding begin_filled publish OthersKept
begin_filled-OthersKept m k s r =
    option_elim (Frame k m.sessions) (request_refusal m k s r)
      (λ fine g ne.
        ap (lookup g) (log_locked-sessions _ _ _ _ _ _) ∙ lookup-insert_ne g k _ m.sessions ne)
      (λ e h g ne. ap (lookup g) (after_refusal-sessions m e))

pub begin_decision-OthersKept :
    (m : SessionManager) (c : Credentials) (r : DecisionRequest)
    → OthersKept c.game_id m.sessions (begin_decision m c r).0
unfolding begin_decision
begin_decision-OthersKept m c r =
    let same = others_same c.game_id m in
    reply_elim (Frame c.game_id m.sessions) (authorize m c) (λ e h. same)
      (λ s h.
        option_elim (Frame c.game_id m.sessions) s.pending
          (λ e.
            subst
              (λ d.
                OthersKept c.game_id d
                  (begin_filled (fill_deadline m r).0 c.game_id s (fill_deadline m r).1).0)
              (fill_deadline-sessions m r)
              (begin_filled-OthersKept (fill_deadline m r).0 c.game_id s (fill_deadline m r).1))
          (λ p e. same))

answer_pending-OthersKept :
    (m : SessionManager) (k : String) (s : Session) (p : PendingDecision) (r : DecisionResponse)
    → OthersKept k m.sessions (answer_pending m k s p r).0
unfolding answer_pending outcome_locked
answer_pending-OthersKept m k s p r =
    if_elim (Frame k m.sessions) (not (str_eq r.decision_id p.request.decision_id))
      (λ e. others_log k (ticked m) s _ _ _ _)
      (λ same.
        if_elim (Frame k m.sessions) (not (is_legal r.action p.request.observation.legal_actions))
          (λ e. others_log k (ticked m) s _ _ _ _)
          (λ legal.
            if_elim (Frame k m.sessions) (is_resign r.action.kind)
              (λ e. others_resolve m k s _ _ _ _) (λ e. others_resolve m k s _ _ _ _)))

submit_valid-OthersKept :
    (m : SessionManager) (k : String) (s : Session) (r : DecisionResponse)
    → OthersKept k m.sessions (submit_valid m k s r).0
unfolding submit_valid outcome_locked
submit_valid-OthersKept m k s r =
    option_elim (Frame k m.sessions) (lookup r.decision_id s.resolved)
      (λ new.
        option_elim (Frame k m.sessions) s.pending (λ e. others_log k (ticked m) s _ _ _ _)
          (λ p waits.
            if_elim (Frame k m.sessions) (not (is_supported r.action.kind))
              (λ e. others_log k (ticked m) s _ _ _ _)
              (λ e.
                if_elim (Frame k m.sessions) (leb p.deadline (now m))
                  (λ late. others_resolve (ticked m) k s _ _ _ _)
                  (λ e. answer_pending-OthersKept (ticked m) k s p r))))
      (λ prior e. others_log k m s _ _ _ _)

pub submit_decision-OthersKept :
    (m : SessionManager) (c : Credentials) (r : DecisionResponse)
    → OthersKept c.game_id m.sessions (submit_decision m c r).0
unfolding submit_decision outcome_locked
submit_decision-OthersKept m c r =
    reply_elim (Frame c.game_id m.sessions) (authorize m c) (λ e h. others_same c.game_id m)
      (λ s h.
        option_elim (Frame c.game_id m.sessions) (validate_response r)
          (λ valid. submit_valid-OthersKept m c.game_id s r)
          (λ fault e. others_log c.game_id (ticked m) s _ _ _ _))

pub resolve_timeout-OthersKept :
    (m : SessionManager) (c : Credentials) → OthersKept c.game_id m.sessions (resolve_timeout m c).0
unfolding resolve_timeout
resolve_timeout-OthersKept m c =
    let same = others_same c.game_id m in
    reply_elim (Frame c.game_id m.sessions) (authorize m c) (λ e h. same)
      (λ s h.
        option_elim (Frame c.game_id m.sessions) s.pending (λ e. same)
          (λ p waits.
            if_elim (Frame c.game_id m.sessions) (ltb (now m) p.deadline)
              (λ e. others_same c.game_id (ticked m))
              (λ e. others_resolve (ticked m) c.game_id s _ _ _ _)))

pub disconnect-OthersKept :
    (m : SessionManager) (c : Credentials) (reason : String)
    → OthersKept c.game_id m.sessions (disconnect m c reason).0
unfolding disconnect
disconnect-OthersKept m c reason =
    let same = others_same c.game_id m in
    reply_elim (Frame c.game_id m.sessions) (authorize m c) (λ e h. same)
      (λ s h.
        option_elim (Frame c.game_id m.sessions) s.pending (λ e. same)
          (λ p waits. others_resolve m c.game_id s _ _ _ _))

mark_closed-others :
    (k g : String) (sessions : Dict String Session)
    → k ≢ g
    → lookup g (mark_closed k sessions) ≡ lookup g sessions
unfolding mark_closed
mark_closed-others k g sessions ne =
    option_elim (λ (d : Dict String Session). lookup g d ≡ lookup g sessions) (lookup k sessions)
      (λ e. refl) (λ s found. lookup-insert_ne g k _ sessions ne)

pub close_session-OthersKept :
    (m : SessionManager) (c : Credentials) → OthersKept c.game_id m.sessions (close_session m c).0
unfolding close_session OthersKept
close_session-OthersKept m c =
    reply_elim (Frame c.game_id m.sessions) (authorize m c) (λ e h g ne. refl)
      (λ s h g ne.
        mark_closed-others c.game_id g _ ne
        ∙ (option_elim (Frame c.game_id m.sessions) s.pending (λ e. others_same c.game_id m)
              (λ p waits. others_resolve m c.game_id s _ _ _ _))
            g ne)
