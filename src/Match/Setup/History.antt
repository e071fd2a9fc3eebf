-- ===== src/Match/Setup/History.antt =====
-- What hydrateSAME installs.
use worms_ng.Prelude.{
  List, String, [], ap, sym, arith, get_elem?, get_elem?-lt, get_elem?-modify_ne,
  get_elem?-modify_self, if_elim, inl, inr, length, ltb, ltb→lt, none, not, option_elim, refl, some,
  subst, suc, true, ℕ, ◌<◌, ◌∙◌, ◌∷◌, ◌≡◌, ◌≢◌, ◌⊎◌,
}
use worms_ng.Engine.Rules.{RuleTable, validate_rules}
use worms_ng.Engine.Types.{Worm}
use worms_ng.Match.{Match}
use worms_ng.Match.Setup.{
  Archive, BrainVersion, Config, found, Game, GameSlot, Setup, find_source, history_of,
  hydrate_same, hydrate_worm, hydrate_worms, install_same, load_rules, of_found, profile_of, ready,
  stops, wants_history, ◌>>=◌,
}
use worms_ng.Match.Setup.Sources.{
  IsFirst, IsHistory, IsProfile, Wants, find_source-IsFirst, history_of-IsHistory, load_rules-found,
  participants_of, profile_of-IsProfile, wants_history-Wants,
}
use worms_ng.Match.Setup.Start.{Gives, bind-Gives, of_found-Gives}

module _ {S : Type 0} (a : Archive S) (c : Config S) (games : List Game) where
  -- A slot has the table of the first participant of the games that held it with its profile and a
  -- version.
  pub record IsInstalled (i : ℕ) (w w' : Worm) (versions : List String) : Type 0 where
    pub profile : String
    pub own_profile : IsProfile c i w profile
    pub source : GameSlot
    pub chosen : IsFirst i profile (participants_of games) source
    pub version : BrainVersion
    pub stored : a.version source.brain_version_id ≡ found version
    pub rules : RuleTable
    pub loaded : version.rules ≡ some rules
    pub valid : validate_rules rules ≡ none
    pub same : w' ≡ record w { rules = rules }
    pub recorded : get_elem? versions i ≡ some version.id

  abbrev pub SlotOk : ℕ → Worm → Worm → List String → Type 0
  SlotOk i w w' versions = (¬ Wants c i w) × (w' ≡ w) ⊎ Wants c i w × IsInstalled i w w' versions

  -- The slots from `i` on.
  abbrev pub SlotsOk : ℕ → List Worm → List Worm → List String → Type 0
  SlotsOk i [] [] versions = Unit
  SlotsOk i (w ∷ ws) (w' ∷ ws') versions = SlotOk i w w' versions × SlotsOk (suc i) ws ws' versions
  SlotsOk i ws ws' versions = ⊥

  -- An installed slot stays installed while its version stays.
  SlotOk-kept :
      (i : ℕ) (w w' : Worm) (versions versions' : List String)
      → get_elem? versions' i ≡ get_elem? versions i
      → SlotOk i w w' versions
      → SlotOk i w w' versions'
  SlotOk-kept i w w' versions versions' kept (inl h) = inl h
  SlotOk-kept i w w' versions versions' kept (inr (wanted, h)) = inr (
    wanted,
    record {
      profile = h.profile;
      own_profile = h.own_profile;
      source = h.source;
      chosen = h.chosen;
      version = h.version;
      stored = h.stored;
      rules = h.rules;
      loaded = h.loaded;
      valid = h.valid;
      same = h.same;
      recorded = kept ∙ h.recorded;
    },
  )

  load_rules-valid : (id : String) → Gives (λ t. validate_rules t.1 ≡ none) (load_rules a id)
  unfolding load_rules
  load_rules-valid id =
      let P : String × RuleTable → Type 0 = λ t. validate_rules t.1 ≡ none in
      bind-Gives (λ v. Unit) P (of_found (a.version id)) _ (of_found-Gives (a.version id))
        (λ v u.
          option_elim (Gives P) v.rules (λ e. tt)
            (λ rules e. option_elim (Gives P) (validate_rules rules) (λ ok. ok) (λ fault e'. tt)))

  -- One slot: the versions of the others stay.
  abbrev Leaves : ℕ → Worm → List String → Worm × List String → Type 0
  Leaves i w versions x =
      ((k : ℕ) → i ≢ k → get_elem? x.1 k ≡ get_elem? versions k) × SlotOk i w x.0 x.1

  install_same-Leaves :
      (i : ℕ) (w : Worm) (versions : List String) (p : GameSlot) (t : String × RuleTable)
      → wants_history c i w ≡ true
      → find_source i (profile_of c i w) games ≡ some p
      → load_rules a p.brain_version_id ≡ ready t
      → validate_rules t.1 ≡ none
      → Gives (Leaves i w versions) (install_same i w versions t)
  unfolding install_same
  install_same-Leaves i w versions p (id, rules) wanted chosen loaded valid =
      if_elim (Gives (Leaves i w versions)) (ltb i (length versions))
        (λ e.
          let (before, there) = get_elem?-lt versions i (ltb→lt i (length versions) e) in
          let (v, stored, named, read) = load_rules-found a p.brain_version_id loaded in
          (
            λ k ne. get_elem?-modify_ne versions i k (λ v. id) ne,
            inr (
              (wants_history-Wants c i w).0 wanted,
              record {
                profile = profile_of c i w;
                own_profile = profile_of-IsProfile c i w;
                source = p;
                chosen = find_source-IsFirst i (profile_of c i w) games chosen;
                version = v;
                stored = stored;
                rules = rules;
                loaded = read;
                valid = valid;
                same = refl;
                recorded =
                    get_elem?-modify_self versions i (λ v. id) there
                    ∙ ap (λ (x : String). some x) (sym named);
              },
            ),
          ))
        (λ e. tt)

  load_then-Leaves :
      (i : ℕ) (w : Worm) (versions : List String) (p : GameSlot) (x : Setup (String × RuleTable))
      → wants_history c i w ≡ true
      → find_source i (profile_of c i w) games ≡ some p
      → load_rules a p.brain_version_id ≡ x
      → Gives (λ t. validate_rules t.1 ≡ none) x
      → Gives (Leaves i w versions) (x >>= install_same i w versions)
  load_then-Leaves i w versions p (ready t) wanted chosen loaded valid =
      install_same-Leaves i w versions p t wanted chosen loaded valid
  load_then-Leaves i w versions p (stops fault) wanted chosen loaded valid = tt

  hydrate_worm-Leaves :
      (i : ℕ) (w : Worm) (versions : List String)
      → Gives (Leaves i w versions) (hydrate_worm a c games i w versions)
  unfolding hydrate_worm
  hydrate_worm-Leaves i w versions =
      if_elim (Gives (Leaves i w versions)) (wants_history c i w)
        (λ wanted.
          option_elim (Gives (Leaves i w versions)) (find_source i (profile_of c i w) games)
            (λ e. tt)
            (λ p chosen.
              load_then-Leaves i w versions p (load_rules a p.brain_version_id) wanted chosen refl
                (load_rules-valid p.brain_version_id)))
        (λ other.
          (λ k ne. refl, inl (λ h. let wanted = (wants_history-Wants c i w).1 h in cc, refl)))

  -- The loop: the versions of the slots before stay.
  abbrev LeavesAll : ℕ → List Worm → List String → List Worm × List String → Type 0
  LeavesAll i ws versions x =
      ((k : ℕ) → k < i → get_elem? x.1 k ≡ get_elem? versions k) × SlotsOk i ws x.0 x.1

  hydrate_worms-LeavesAll :
      (i : ℕ) (ws : List Worm) (versions : List String)
      → Gives (LeavesAll i ws versions) (hydrate_worms a c games i ws versions)
  unfolding hydrate_worms
  hydrate_worms-LeavesAll i [] versions = (λ k h. refl, tt)
  hydrate_worms-LeavesAll i (w ∷ ws) versions =
      bind-Gives (Leaves i w versions) (LeavesAll i (w ∷ ws) versions)
        (hydrate_worm a c games i w versions) _ (hydrate_worm-Leaves i w versions)
        (λ first one.
          bind-Gives (LeavesAll (suc i) ws first.1) (LeavesAll i (w ∷ ws) versions)
            (hydrate_worms a c games (suc i) ws first.1) _
            (hydrate_worms-LeavesAll (suc i) ws first.1)
            (λ rest more. (
              λ k h. more.0 k (omega arith) ∙ one.0 k (λ e. omega arith),
              (SlotOk-kept i w first.0 first.1 rest.1 (more.0 i (omega arith)) one.1, more.1),
            )))

module _ {S : Type 0} (a : Archive S) (c : Config S) (m : Match S) where
  -- What hydrateSAME leaves of a match.
  abbrev pub Hydrates : Match S → Type 0
  Hydrates m' =
      (games : List Game) × IsHistory a c games
      × SlotsOk a c games 0 m.state.worms m'.state.worms m'.brain_versions

  games_then-Hydrates :
      (x : Setup (List Game))
      → history_of a c ≡ x
      → Gives Hydrates (
          x >>= λ games. hydrate_worms a c games 0 m.state.worms m.brain_versions >>= λ slots.
          ready (record m { state = record m.state { worms = slots.0 }; brain_versions = slots.1 }))
  games_then-Hydrates (stops fault) e = tt
  games_then-Hydrates (ready games) e =
      bind-Gives (LeavesAll a c games 0 m.state.worms m.brain_versions) Hydrates
        (hydrate_worms a c games 0 m.state.worms m.brain_versions) _
        (hydrate_worms-LeavesAll a c games 0 m.state.worms m.brain_versions)
        (λ slots h. (games, history_of-IsHistory a c e, h.1))

  hydrate_same-Gives : m.has_store ≡ true → Gives Hydrates (hydrate_same a c m)
  unfolding hydrate_same
  hydrate_same-Gives stored =
      if_elim (Gives Hydrates) (not m.has_store) (λ e. ground (arith, stored))
        (λ e. games_then-Hydrates (history_of a c) refl)

  -- When hydrateSAME succeeds for a match with a store, the games of its history are the previous
  -- game, which is finished, or without one the finished games of the store; and each SAME slot
  -- without a brain version of its own, with the profile that is configured for it or else the
  -- name of its worm, has the table of the version of the first participant of these games that
  -- held the slot with the profile and a version: a table that ValidateRules accepts, whose
  -- version is recorded for the slot. Every other worm is unchanged.
  pub hydrate_same-Hydrates :
      {m' : Match S} → hydrate_same a c m ≡ ready m' → m.has_store ≡ true → Hydrates m'
  hydrate_same-Hydrates e stored = subst (Gives Hydrates) e (hydrate_same-Gives stored)
