-- ===== src/Agent/Closed.antt =====
-- A closed session of session.go stays as it is, and answers nothing.
use worms_ng.Prelude.{
  Bool-cases, Dict, Option, String, ap, arith, contains, false, if_elim, inl, inr, insert, lookup,
  lookup-insert_self, none, option_elim, refl, some, str_eq, str_eq_iff, string_eq, subst, sym,
  true, ◌||◌, ◌∙◌, ◌≡◌, ◌≢◌, ◌⊎◌,
}
use worms_ng.Agent.{
  Credentials, Policy, Reply, Session, SessionError, SessionManager, authorize, err, no_decision,
  ok, outcome_of, resolve_locked, unauthorized, unknown_session,
}
use worms_ng.Agent.Frame.{
  OthersKept, begin_decision-OthersKept, close_session-OthersKept, disconnect-OthersKept,
  resolve_timeout-OthersKept, start_session-OthersKept, submit_decision-OthersKept,
}
use worms_ng.Agent.Reach.{
  Reach, Step, begins, closes, disconnects, here, next, starts, submits, times_out,
}
use worms_ng.Agent.Sessions.{
  begin_decision, close_session, disconnect, mark_closed, open_session, resolve_timeout,
  start_session, submit_decision,
}
use worms_ng.Agent.Sound.{authorize_inv}
use worms_ng.Protocol.{
  Action, DecisionOutcome, DecisionRequest, DecisionResponse, OutcomeKind, outcome_disconnect,
}

-- The session `s` is stored under `k`, and is closed.
unfoldable pub Ended : String → Session → SessionManager → Type 0
Ended k s m = (lookup k m.sessions ≡ some s) × (s.closed ≡ true)

-- No credentials open a closed session.
closed_refuses :
    (m : SessionManager) (c : Credentials) (s : Session)
    → Ended c.game_id s m
    → (authorize m c ≡ err unknown_session) ⊎ (authorize m c ≡ err unauthorized)
unfolding Ended authorize
closed_refuses m c s h = elim (Bool-cases (str_eq c.game_id "" || str_eq c.token "")) [
  | inl empty ↦ inr (rw empty refl)
  | inr named ↦ elim (Bool-cases (str_eq s.credential c.token)) [
    | inl key ↦ inl (rw named (rw h.0 (rw key (rw h.1 refl))))
    | inr wrong ↦ inr (rw named (rw h.0 (rw wrong refl)))
  ]
]

str_ne : (a b : String) → str_eq a b ≡ false → a ≢ b
str_ne a b h e = absurd (ground (arith, (str_eq_iff a b).1 e))

-- An operation whose credentials are refused, and one of another game, leave the closed session.
Ended-intro :
    {A : Type 0} (k : String) (s : Session) (m : SessionManager) (c : Credentials)
    (r : SessionManager × A)
    → Ended k s m
    → OthersKept c.game_id m.sessions r.0
    → ((e : SessionError) → authorize m c ≡ err e → r.0 ≡ m)
    → Ended k s r.0
unfolding Ended OthersKept
Ended-intro k s m c r h others shut = elim (Bool-cases (str_eq c.game_id k)) [
  | inl mine ↦
      let same = (str_eq_iff c.game_id k).0 mine in
      let kept : r.0 ≡ m = elim (closed_refuses m c s (subst (λ g. Ended g s m) (sym same) h)) [
        | inl gone ↦ shut unknown_session gone
        | inr wrong ↦ shut unauthorized wrong
      ] in
      (ap (λ (x : SessionManager). lookup k x.sessions) kept ∙ h.0, h.1)
  | inr other ↦ (others k (str_ne c.game_id k other) ∙ h.0, h.1)
]

refused_begin :
    (m : SessionManager) (c : Credentials) (r : DecisionRequest) (e : SessionError)
    → authorize m c ≡ err e
    → (begin_decision m c r).0 ≡ m
unfolding begin_decision
refused_begin m c r e h = rw (h, begin_decision) refl

refused_submit :
    (m : SessionManager) (c : Credentials) (r : DecisionResponse) (e : SessionError)
    → authorize m c ≡ err e
    → (submit_decision m c r).0 ≡ m
unfolding submit_decision
refused_submit m c r e h = rw (h, submit_decision) refl

refused_timeout :
    (m : SessionManager) (c : Credentials) (e : SessionError)
    → authorize m c ≡ err e
    → (resolve_timeout m c).0 ≡ m
unfolding resolve_timeout
refused_timeout m c e h = rw (h, resolve_timeout) refl

refused_disconnect :
    (m : SessionManager) (c : Credentials) (reason : String) (e : SessionError)
    → authorize m c ≡ err e
    → (disconnect m c reason).0 ≡ m
unfolding disconnect
refused_disconnect m c reason e h = rw (h, disconnect) refl

refused_close :
    (m : SessionManager) (c : Credentials) (e : SessionError)
    → authorize m c ≡ err e
    → (close_session m c).0 ≡ m
unfolding close_session
refused_close m c e h = rw (h, close_session) refl

abbrev Same {ℓ} : {A : Type ℓ} → SessionManager → SessionManager × A → Type 0
Same m (m', a) = m' ≡ m

-- A game that has a session is not started again.
start_again :
    (k : String) (s : Session) (m : SessionManager) (worm : String) (policy : Option Policy)
    (token : Option String)
    → lookup k m.sessions ≡ some s
    → (start_session m k worm policy token).0 ≡ m
unfolding start_session open_session
start_again k s m worm policy token h =
    let found : contains k m.sessions ≡ true = ground (arith, h) in
    option_elim (Same m) policy (λ e. refl)
      (λ p e.
        if_elim (Same m) (str_eq k "" || str_eq worm "") (λ e. refl)
          (λ named.
            option_elim (Same m) token (λ e. refl)
              (λ t e.
                if_elim (Same m) (str_eq t "") (λ e. refl)
                  (λ e.
                    if_elim (Same m) (contains k m.sessions) (λ e. refl)
                      (λ new. absurd (ground (arith, found, new)))))))

start_session-Ended :
    (k : String) (s : Session) (m : SessionManager) (game worm : String) (policy : Option Policy)
    (token : Option String)
    → Ended k s m
    → Ended k s (start_session m game worm policy token).0
unfolding Ended OthersKept
start_session-Ended k s m game worm policy token h = elim (Bool-cases (str_eq game k)) [
  | inl mine ↦
      let same = (str_eq_iff game k).0 mine in
      let kept =
        start_again game s m worm policy token
          (subst (λ g. lookup g m.sessions ≡ some s) (sym same) h.0) in
      (ap (λ (x : SessionManager). lookup k x.sessions) kept ∙ h.0, h.1)
  | inr other ↦
      (start_session-OthersKept m game worm policy token k (str_ne game k other) ∙ h.0, h.1)
]

Step-Ended :
    {a b : SessionManager} (k : String) (s : Session) → Step a b → Ended k s a → Ended k s b
Step-Ended k s (starts m game worm policy token) h =
    start_session-Ended k s m game worm policy token h
Step-Ended k s (begins m c r) h =
    Ended-intro k s m c (begin_decision m c r) h (begin_decision-OthersKept m c r)
      (refused_begin m c r)
Step-Ended k s (submits m c r) h =
    Ended-intro k s m c (submit_decision m c r) h (submit_decision-OthersKept m c r)
      (refused_submit m c r)
Step-Ended k s (times_out m c) h =
    Ended-intro k s m c (resolve_timeout m c) h (resolve_timeout-OthersKept m c)
      (refused_timeout m c)
Step-Ended k s (disconnects m c reason) h =
    Ended-intro k s m c (disconnect m c reason) h (disconnect-OthersKept m c reason)
      (refused_disconnect m c reason)
Step-Ended k s (closes m c) h =
    Ended-intro k s m c (close_session m c) h (close_session-OthersKept m c) (refused_close m c)

Reach-Ended :
    {a b : SessionManager} (k : String) (s : Session) → Reach a b → Ended k s a → Ended k s b
Reach-Ended k s here h = h
Reach-Ended k s (next run step) h = Step-Ended k s step (Reach-Ended k s run h)

mark_closed-lookup :
    (k : String) (s : Session) (sessions : Dict String Session)
    → lookup k sessions ≡ some s
    → lookup k (mark_closed k sessions) ≡ some (record s { closed = true })
unfolding mark_closed
mark_closed-lookup k s sessions h = rw (h, mark_closed) (lookup-insert_self k _ sessions)

-- What a session is after its resolution is stored under its key.
pub resolve_locked-lookup :
    (m : SessionManager) (k : String) (s : Session) (id : String) (kind : OutcomeKind)
    (action : Option Action) (reason : String)
    → lookup k (resolve_locked m k s id kind action reason).0.sessions
      ≡ some (record s {
        pending = none;
        resolved = insert id (outcome_of m s id kind action reason) s.resolved;
      })
unfolding resolve_locked
resolve_locked-lookup m k s id kind action reason = lookup-insert_self k _ _

abbrev HasSession {ℓ} : {A : Type ℓ} → String → SessionManager × A → Type 0
HasSession k (m, a) = (s : Session) × (lookup k m.sessions ≡ some s)

close_session-Ended :
    (m : SessionManager) (c : Credentials) (s : Session)
    → authorize m c ≡ ok s
    → (t : Session) × Ended c.game_id t (close_session m c).0
unfolding close_session Ended
close_session-Ended m c s h =
    let ended = elim s.pending as (λ o. SessionManager × Reply DecisionOutcome) [
      | none ↦ (m, err no_decision)
      | some p ↦
          resolve_locked m c.game_id s p.request.decision_id outcome_disconnect none
            "session closed"
    ] in
    let kept : HasSession c.game_id ended =
      option_elim (HasSession c.game_id) s.pending (λ e. (s, (authorize_inv m c s h).0))
        (λ p e. (_, resolve_locked-lookup m c.game_id s _ _ _ _)) in
    rw (h, close_session) (_, (mark_closed-lookup c.game_id kept.0 ended.0.sessions kept.1, refl))

-- After a Close with credentials that are authorised, whatever operations follow, Submit for that
-- game returns an error and changes nothing.
pub close_session-refuses :
    (m m' : SessionManager) (c c' : Credentials) (s : Session) (r : DecisionResponse)
    → authorize m c ≡ ok s
    → Reach (close_session m c).0 m'
    → c'.game_id ≡ c.game_id
    → (submit_decision m' c' r ≡ (m', err unknown_session))
      ⊎ (submit_decision m' c' r ≡ (m', err unauthorized))
unfolding submit_decision
close_session-refuses m m' c c' s r h run same =
    let ended = close_session-Ended m c s h in
    let still = Reach-Ended c.game_id ended.0 run ended.1 in
    elim (closed_refuses m' c' ended.0 (subst (λ g. Ended g ended.0 m') (sym same) still)) [
      | inl gone ↦ inl (rw (gone, submit_decision) refl)
      | inr wrong ↦ inr (rw (wrong, submit_decision) refl)
    ]
