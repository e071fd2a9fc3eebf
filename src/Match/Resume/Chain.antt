-- ===== src/Match/Resume/Chain.antt =====
-- What ResumeMatch has verified of the event chain.
use worms_ng.Prelude.{
  &&-true, ==_iff, Bool, List, Option, String, [], arith, false, length, none, not, refl, some,
  str_eq, str_eq_iff, subst, suc, true, ℕ, ◌&&◌, ◌+◌, ◌==◌, ◌∷◌, ◌≡◌,
}
use worms_ng.Engine.Types.{State}
use worms_ng.Match.{Match, World}
use worms_ng.Match.Resume.{
  Head, Persisted, StoredEvent, StoredSnapshot, Vault, apply_transition, check_events, first_prev,
  is_next, open_snapshot, replay_events, require, restore_engine, resume_match, verify_game,
}
use worms_ng.Match.Setup.{Archive, Config, found, of_found, ready, stops, unverified}
use worms_ng.Match.Setup.Start.{Gives, any-Gives, bind-Gives, of_found-same, weaken-Gives}

module _ {S : Type 0} (v : Vault S) where
  -- Events that follow one another, from a sequence number and a hash to another such pair: each
  -- counts on by one, names the hash before it, and has the hash of its own content.
  abbrev pub Linked : List StoredEvent → ℕ → String → ℕ → String → Type 0
  Linked [] n prev last hash = (last ≡ n) × (hash ≡ prev)
  Linked (e ∷ es) n prev last hash =
      (e.sequence ≡ suc n)
      × (e.prev_hash ≡ prev)
      × (v.hash_event e.sequence e.prev_hash e.kind e.payload ≡ e.hash)
      × Linked es e.sequence e.hash last hash

  Linked-length :
      (es : List StoredEvent) (n : ℕ) (prev : String) (last : ℕ) (hash : String)
      → Linked es n prev last hash
      → last ≡ n + length es
  Linked-length [] n prev last hash h = omega (arith, h.0)
  Linked-length (e ∷ es) n prev last hash h =
      omega (arith, h.0, Linked-length es e.sequence e.hash last hash h.3)

  require-Gives : (b : Bool) → Gives (λ u. b ≡ true) (require b)
  require-Gives true = refl
  require-Gives false = tt

  next_parts :
      (e : StoredEvent) (n : ℕ) (prev : String)
      → is_next v e n prev ≡ true
      → (e.sequence ≡ suc n)
        × (e.prev_hash ≡ prev)
        × (v.hash_event e.sequence e.prev_hash e.kind e.payload ≡ e.hash)
  unfolding is_next
  next_parts e n prev h =
      let found = v.hash_event e.sequence e.prev_hash e.kind e.payload in
      let (front, third) =
        &&-true (e.sequence == suc n && str_eq e.prev_hash prev) (str_eq found e.hash) h in
      let (first, second) = &&-true (e.sequence == suc n) (str_eq e.prev_hash prev) front in
      (
        (==_iff e.sequence (suc n)).0 first,
        (str_eq_iff e.prev_hash prev).0 second,
        (str_eq_iff found e.hash).0 third,
      )

  check_events-Linked :
      (es : List StoredEvent) (n : ℕ) (prev : String) (x : State × Persisted S)
      → Gives (λ y. Linked es n prev y.1 y.2) (check_events v es n prev x)
  unfolding check_events
  check_events-Linked [] n prev x = (refl, refl)
  check_events-Linked (e ∷ es) n prev x =
      let P : (State × Persisted S) × ℕ × String → Type 0 = λ y. Linked (e ∷ es) n prev y.1 y.2 in
      bind-Gives (λ u. is_next v e n prev ≡ true) P (require (is_next v e n prev)) _
        (require-Gives (is_next v e n prev))
        (λ u next.
          let (counted, named, hashed) = next_parts e n prev next in
          bind-Gives (λ x'. Unit) P (apply_transition v (v.read_transition e.payload) x) _
            (any-Gives (apply_transition v (v.read_transition e.payload) x))
            (λ x' t.
              weaken-Gives (λ y. Linked es e.sequence e.hash y.1 y.2) P
                (check_events v es e.sequence e.hash x')
                (check_events-Linked es e.sequence e.hash x') (λ y h. (counted, named, hashed, h))))

  -- The game has been read up to its head, from a snapshot with the hash that it was stored with.
  pub record IsVerified (c : Config S) (g : Head) : Type 0 where
    pub snapshot : StoredSnapshot
    pub events : List StoredEvent
    pub head_read : v.head c.game_id ≡ found g
    pub chain_checked : v.chain_fault c.game_id ≡ none
    pub snapshot_read : v.snapshot c.game_id ≡ found snapshot
    pub genuine : v.hash_bytes snapshot.payload ≡ snapshot.hash
    pub events_read : v.events c.game_id snapshot.sequence ≡ found events
    pub linked : Linked events snapshot.sequence (first_prev v g events) g.sequence g.event_hash
    pub complete : g.sequence ≡ snapshot.sequence + length events

  open_snapshot-genuine :
      (x : StoredSnapshot) → Gives (λ p. v.hash_bytes x.payload ≡ x.hash) (open_snapshot v x)
  unfolding open_snapshot
  open_snapshot-genuine x =
      let genuine = str_eq (v.hash_bytes x.payload) x.hash in
      bind-Gives (λ u. genuine ≡ true) (λ p. v.hash_bytes x.payload ≡ x.hash) (require genuine) _
        (require-Gives genuine)
        (λ u e.
          weaken-Gives (λ p. Unit) (λ p. v.hash_bytes x.payload ≡ x.hash) _ (any-Gives _)
            (λ p t. (str_eq_iff (v.hash_bytes x.payload) x.hash).0 e))

  chain_checked-Gives :
      (x : Option String)
      → Gives
          (λ (u : Unit {0}). x ≡ none)
          (elim x [ none ↦ ready tt | some reason ↦ stops unverified ])
  chain_checked-Gives none = refl
  chain_checked-Gives (some reason) = tt

  replay_events-IsVerified :
      (c : Config S) (g : Head) (x : StoredSnapshot)
      → v.head c.game_id ≡ found g
      → v.chain_fault c.game_id ≡ none
      → v.snapshot c.game_id ≡ found x
      → Gives (λ y. IsVerified c y.0) (replay_events v c g x)
  unfolding replay_events
  replay_events-IsVerified c g x head_read chain_checked snapshot_read =
      let P : Head × State × Persisted S → Type 0 = λ y. IsVerified c y.0 in
      bind-Gives (λ p. v.hash_bytes x.payload ≡ x.hash) P (open_snapshot v x) _
        (open_snapshot-genuine x)
        (λ p genuine.
          bind-Gives (λ s. Unit) P (restore_engine v p.engine) _ (any-Gives _)
            (λ s t.
              bind-Gives (λ events. v.events c.game_id x.sequence ≡ found events) P
                (of_found (v.events c.game_id x.sequence)) _
                (of_found-same (v.events c.game_id x.sequence))
                (λ events events_read.
                  bind-Gives (λ y. Linked events x.sequence (first_prev v g events) y.1 y.2) P
                    (check_events v events x.sequence (first_prev v g events) (s, p)) _
                    (check_events-Linked events x.sequence (first_prev v g events) (s, p))
                    (λ last linked.
                      let at_head = last.1 == g.sequence && str_eq last.2 g.event_hash in
                      bind-Gives (λ u. at_head ≡ true) P (require at_head) _ (require-Gives at_head)
                        (λ u e.
                          let (counted, hashed) =
                            &&-true (last.1 == g.sequence) (str_eq last.2 g.event_hash) e in
                          let linked' =
                            subst
                              (λ n. Linked events x.sequence (first_prev v g events) n g.event_hash)
                              ((==_iff last.1 g.sequence).0 counted)
                              (subst (Linked events x.sequence (first_prev v g events) last.1)
                                ((str_eq_iff last.2 g.event_hash).0 hashed) linked) in
                          record {
                            snapshot = x;
                            events = events;
                            head_read = head_read;
                            chain_checked = chain_checked;
                            snapshot_read = snapshot_read;
                            genuine = genuine;
                            events_read = events_read;
                            linked = linked';
                            complete =
                                Linked-length events x.sequence (first_prev v g events) g.sequence
                                  g.event_hash linked';
                          })))))

  verify_game-IsVerified : (c : Config S) → Gives (λ x. IsVerified c x.0) (verify_game v c)
  unfolding verify_game
  verify_game-IsVerified c =
      let P : Head × State × Persisted S → Type 0 = λ x. IsVerified c x.0 in
      bind-Gives (λ u. Unit) P (require (c.has_store && not (str_eq c.game_id ""))) _ (any-Gives _)
        (λ u t.
          bind-Gives (λ g. v.head c.game_id ≡ found g) P (of_found (v.head c.game_id)) _
            (of_found-same (v.head c.game_id))
            (λ g head_read.
              bind-Gives (λ u'. v.chain_fault c.game_id ≡ none) P _ _
                (chain_checked-Gives (v.chain_fault c.game_id))
                (λ u' chain_checked.
                  bind-Gives (λ x. v.snapshot c.game_id ≡ found x) P
                    (of_found (v.snapshot c.game_id)) _ (of_found-same (v.snapshot c.game_id))
                    (λ x snapshot_read.
                      replay_events-IsVerified c g x head_read chain_checked snapshot_read))))

  -- When ResumeMatch returns a match, the stored snapshot has the hash that it was stored with,
  -- and the events behind it, from its sequence number to the head of the game, count up by one,
  -- name the hash before them and have the hash of their own content; none is missing.
  pub resume_match-IsVerified :
      (e : World S) (a : Archive S) (c : Config S) {m : Match S}
      → resume_match v e a c ≡ ready m
      → (g : Head) × IsVerified c g
  unfolding resume_match
  resume_match-IsVerified e a c resumed =
      let P : Match S → Type 0 = λ m. (g : Head) × IsVerified c g in
      subst (Gives P) resumed (
        bind-Gives (λ x. IsVerified c x.0) P (verify_game v c) _ (verify_game-IsVerified c)
          (λ x h. weaken-Gives (λ m. Unit) P _ (any-Gives _) (λ m t. (x.0, h))))
