-- ===== src/Agent/Sound.antt =====
-- The invariant of the session manager of session.go, and what keeps it.
use worms_ng.Prelude.{
  All, All-insert, All-lookup, Bool-cases, Option, String, ap, arith, false, if_elim, inl, inr,
  insert, is_blank, lookup, none, not, option_elim, refl, some, str_eq, str_eq_iff, string_eq,
  subst, sym, true, ◌||◌, ◌∙◌, ◌≡◌,
}
use worms_ng.Agent.{
  Credentials, PendingDecision, Reply, Session, SessionError, SessionManager, authorize, err,
  log_locked, ok, record_entry, resolve_locked, ticked,
}
use worms_ng.Agent.Sessions.{is_resign}
use worms_ng.Protocol.{
  Action, DecisionOutcome, DecisionRequest, OutcomeKind, outcome_accepted, outcome_disconnect,
  outcome_resigned, outcome_timeout, schema_version, validate_action, validate_request,
}

-- How a decision can be resolved: an accepted or resigned one carries its action.
unfoldable pub FinalOutcome : OutcomeKind → Option Action → Type 0
FinalOutcome outcome_accepted (some a) = (validate_action a ≡ none) × (is_resign a.kind ≡ false)
FinalOutcome outcome_resigned (some a) = (validate_action a ≡ none) × (is_resign a.kind ≡ true)
FinalOutcome outcome_timeout none = Unit
FinalOutcome outcome_disconnect none = Unit
FinalOutcome k a = ⊥

-- A recorded outcome of the session under the key `k`, stored under its decision.
unfoldable pub GoodOutcome : String → String → String × DecisionOutcome → Type 0
GoodOutcome k worm (id, o) =
    (o.version ≡ schema_version)
    × (o.game_id ≡ k)
    × (o.worm_id ≡ worm)
    × (o.decision_id ≡ id)
    × (str_eq id "" ≡ false)
    × FinalOutcome o.outcome o.action

unfoldable pub GoodPending : String → String → Option PendingDecision → Type 0
GoodPending k worm none = Unit
GoodPending k worm (some p) =
    (validate_request p.request ≡ none)
    × (p.request.observation.game_id ≡ k)
    × (p.request.observation.worm_id ≡ worm)
    × (p.deadline ≡ p.request.deadline)

unfoldable pub GoodSession : String × Session → Type 0
GoodSession (k, s) =
    (s.game_id ≡ k)
    × (str_eq k "" ≡ false)
    × (str_eq s.worm_id "" ≡ false)
    × GoodPending k s.worm_id s.pending
    × All (GoodOutcome k s.worm_id) s.resolved

-- The sessions belong to their keys; what is pending has been validated for its session; what is
-- resolved is one of the four final outcomes, stored under its own decision.
unfoldable pub Sound : SessionManager → Type 0
Sound m = All GoodSession m.sessions

pub reply_elim {ℓ κ} :
    {A : Type 0} {B : Type ℓ} (P : B → Type κ) (r : Reply A) {f : SessionError → B} {g : A → B}
    → ((e : SessionError) → r ≡ err e → P (f e))
    → ((a : A) → r ≡ ok a → P (g a))
    → P (elim r [ err e ↦ f e | ok a ↦ g a ])
reply_elim P (err e) h k = h e refl
reply_elim P (ok a) h k = k a refl

pub log_locked-sessions :
    (m : SessionManager) (s : Session) (id : String) (kind : OutcomeKind) (action : Option Action)
    (reason : String)
    → (log_locked m s id kind action reason).sessions ≡ m.sessions
unfolding log_locked record_entry
log_locked-sessions m s id kind action reason =
    option_elim (λ (r : SessionManager). r.sessions ≡ m.sessions) s.pending (λ e. refl)
      (λ p e.
        if_elim (λ (r : SessionManager). r.sessions ≡ m.sessions) (str_eq p.request.decision_id id)
          (λ e. refl) (λ e. refl))

-- A session that is authorised is the stored one, and open.
Authorized : SessionManager → Credentials → Reply Session → Type 0
Authorized m c (err e) = Unit
Authorized m c (ok s) =
    (lookup c.game_id m.sessions ≡ some s)
    × (s.closed ≡ false)
    × (str_eq s.credential c.token ≡ true)
    × (str_eq c.game_id "" || str_eq c.token "" ≡ false)

authorize-Authorized : (m : SessionManager) (c : Credentials) → Authorized m c (authorize m c)
unfolding authorize Authorized
authorize-Authorized m c =
    if_elim (Authorized m c) (str_eq c.game_id "" || str_eq c.token "") (λ e. tt)
      (λ named.
        option_elim (Authorized m c) (lookup c.game_id m.sessions) (λ e. tt)
          (λ s found.
            if_elim (Authorized m c) (not (str_eq s.credential c.token)) (λ e. tt)
              (λ key.
                if_elim (Authorized m c) s.closed (λ e. tt)
                  (λ free. (found, free, ground arith, named)))))

pub authorize_inv :
    (m : SessionManager) (c : Credentials) (s : Session)
    → authorize m c ≡ ok s
    → (lookup c.game_id m.sessions ≡ some s)
      × (s.closed ≡ false)
      × (str_eq s.credential c.token ≡ true)
      × (str_eq c.game_id "" || str_eq c.token "" ≡ false)
unfolding Authorized
authorize_inv m c s h = subst (Authorized m c) h (authorize-Authorized m c)

-- A session that is stored again, with its credential and open, is authorised again.
pub authorize_again :
    (m m' : SessionManager) (c : Credentials) (s t : Session)
    → authorize m c ≡ ok s
    → lookup c.game_id m'.sessions ≡ some t
    → t.credential ≡ s.credential
    → t.closed ≡ s.closed
    → authorize m' c ≡ ok t
unfolding authorize
authorize_again m m' c s t h found key free =
    let old = authorize_inv m c s h in
    let key' : str_eq t.credential c.token ≡ true = ap (λ k. str_eq k c.token) key ∙ old.2 in
    let free' : t.closed ≡ false = free ∙ old.1 in rw (old.3) (rw found (rw key' (rw free' refl)))

pub good_authorized :
    (m : SessionManager) (c : Credentials) (s : Session)
    → Sound m
    → authorize m c ≡ ok s
    → GoodSession (c.game_id, s)
unfolding Sound
good_authorized m c s sound h =
    All-lookup GoodSession c.game_id m.sessions sound (authorize_inv m c s h).0

pub store-Sound :
    (m : SessionManager) (k : String) (s : Session)
    → Sound m
    → GoodSession (k, s)
    → Sound (record m { sessions = insert k s m.sessions })
unfolding Sound
store-Sound m k s sound good = All-insert GoodSession k s m.sessions sound good

-- The log leaves the sessions.
pub log_locked-Sound :
    (m : SessionManager) (s : Session) (id : String) (kind : OutcomeKind) (action : Option Action)
    (reason : String)
    → Sound m
    → Sound (log_locked m s id kind action reason)
unfolding Sound
log_locked-Sound m s id kind action reason sound =
    subst (All GoodSession) (sym (log_locked-sessions m s id kind action reason)) sound

pub resolve_locked-Sound :
    (m : SessionManager) (k : String) (s : Session) (id : String) (kind : OutcomeKind)
    (action : Option Action) (reason : String)
    → Sound m
    → GoodSession (k, s)
    → str_eq id "" ≡ false
    → FinalOutcome kind action
    → Sound (resolve_locked m k s id kind action reason).0
unfolding resolve_locked GoodSession GoodOutcome GoodPending Sound
resolve_locked-Sound m k s id kind action reason sound good named final =
    store-Sound (log_locked (ticked m) s id kind action reason) k _
      (log_locked-Sound (ticked m) s id kind action reason sound)
      (
        good.0,
        good.1,
        good.2,
        tt,
        All-insert (GoodOutcome k s.worm_id) id _ s.resolved good.4
            (refl, good.0, refl, refl, named, final),
      )

pub blank_empty : (id : String) → is_blank id ≡ false → str_eq id "" ≡ false
unfolding is_blank
blank_empty id h = elim (Bool-cases (str_eq id "")) [
  | inl empty ↦ absurd (ground (arith, ap is_blank ((str_eq_iff id "").0 empty)))
  | inr named ↦ named
]

request_named : (r : DecisionRequest) → validate_request r ≡ none → is_blank r.decision_id ≡ false
unfolding validate_request
request_named r h = ground arith

-- A pending decision has a name.
pub pending_named :
    (k : String) (s : Session) (p : PendingDecision)
    → GoodSession (k, s)
    → s.pending ≡ some p
    → str_eq p.request.decision_id "" ≡ false
unfolding GoodSession GoodPending
pending_named k s p good h =
    let g : GoodPending k s.worm_id (some p) = subst (GoodPending k s.worm_id) h good.3 in
    blank_empty _ (request_named p.request g.0)
