-- ===== src/Match/Setup/Start.antt =====
-- A match that NewMatch returns keeps the engine's invariant through any calls.
use worms_ng.Prelude.{
  List, String, [], arith, if_elim, length, ltb, none, not, option_elim, pos, refl, str_eq, subst,
  suc, ℕ, ◌<ℤ◌, ◌∷◌, ◌≡◌,
}
use worms_ng.Engine.Moves.WellFormed.{TerritoriesOk, WellFormed}
use worms_ng.Engine.Rules.{RuleTable}
use worms_ng.Engine.Setup.{validate}
use worms_ng.Engine.Setup.Valid.{validate-WellFormed}
use worms_ng.Engine.Types.{Worm, board}
use worms_ng.Match.{Match, World, persist, stop}
use worms_ng.Match.Alike.{AllAlike, IsAlike, IsAlike-self, alike-Wf, alike_cons}
use worms_ng.Match.Invariant.Calls.{advance-Keeps, resolve-Keeps, stop-Keeps, submit-Keeps}
use worms_ng.Match.Rounds.{advance, resolve, submit_human}
use worms_ng.Match.Setup.{
  Archive, Config, Found, Game, Setup, broken, create_game, enter_game, find_source, found,
  fresh_match, history_of, hydrate_same, hydrate_worm, hydrate_worms, install_same, load_rules,
  missing, name_local, new_match, of_found, profile_of, ready, stops, store_error, validate_config,
  wants_history, ◌>>=◌,
}
use worms_ng.Protocol.{Action}

-- What holds of the value, if there is one.
abbrev pub Gives : {A : Type 0} → (A → Type 0) → Setup A → Type 0
Gives P (ready a) = P a
Gives P (stops fault) = Unit

pub bind-Gives :
    {A B : Type 0} (P : A → Type 0) (Q : B → Type 0) (m : Setup A) (f : A → Setup B)
    → Gives P m
    → ((a : A) → P a → Gives Q (f a))
    → Gives Q (m >>= f)
bind-Gives P Q (ready a) f h k = k a h
bind-Gives P Q (stops fault) f h k = tt

pub of_found-Gives : {A : Type 0} (x : Found A) → Gives (λ a. Unit) (of_found x)
of_found-Gives (found a) = tt
of_found-Gives missing = tt
of_found-Gives (broken reason) = tt

pub any-Gives : {A : Type 0} (m : Setup A) → Gives (λ a. Unit) m
any-Gives (ready a) = tt
any-Gives (stops fault) = tt

pub weaken-Gives :
    {A : Type 0} (P Q : A → Type 0) (m : Setup A) → Gives P m → ((a : A) → P a → Q a) → Gives Q m
weaken-Gives P Q (ready a) h k = k a h
weaken-Gives P Q (stops fault) h k = tt

-- What was found is what the store has returned.
pub of_found-same : {A : Type 0} (x : Found A) → Gives (λ a. x ≡ found a) (of_found x)
of_found-same (found a) = refl
of_found-same missing = tt
of_found-same (broken reason) = tt

install_same-Gives :
    (i : ℕ) (w : Worm) (versions : List String) (t : String × RuleTable)
    → Gives (λ x. IsAlike w x.0) (install_same i w versions t)
unfolding install_same
install_same-Gives i w versions (id, rules) =
    if_elim (Gives (λ x. IsAlike w x.0)) (ltb i (length versions))
      (λ e. record { same_id = refl; same_score = refl; same_life = refl; same_place = refl })
      (λ e. tt)

module _ {S : Type 0} (a : Archive S) (c : Config S) where
  hydrate_worm-Gives :
      (games : List Game) (i : ℕ) (w : Worm) (versions : List String)
      → Gives (λ x. IsAlike w x.0) (hydrate_worm a c games i w versions)
  unfolding hydrate_worm
  hydrate_worm-Gives games i w versions =
      let P : Worm × List String → Type 0 = λ x. IsAlike w x.0 in
      if_elim (Gives P) (wants_history c i w)
        (λ e.
          option_elim (Gives P) (find_source i (profile_of c i w) games) (λ x. tt)
            (λ p x.
              bind-Gives (λ t. Unit) P (load_rules a p.brain_version_id) (install_same i w versions)
                (any-Gives (load_rules a p.brain_version_id))
                (λ t u. install_same-Gives i w versions t)))
        (λ e. IsAlike-self w)

  hydrate_worms-Gives :
      (games : List Game) (i : ℕ) (ws : List Worm) (versions : List String)
      → Gives (λ x. AllAlike ws x.0) (hydrate_worms a c games i ws versions)
  unfolding hydrate_worms
  hydrate_worms-Gives games i [] versions = λ j w g. absurd (ground arith)
  hydrate_worms-Gives games i (w ∷ ws) versions =
      bind-Gives (λ x. IsAlike w x.0) (λ x. AllAlike (w ∷ ws) x.0)
        (hydrate_worm a c games i w versions) _ (hydrate_worm-Gives games i w versions)
        (λ first same.
          bind-Gives (λ x. AllAlike ws x.0) (λ x. AllAlike (w ∷ ws) x.0)
            (hydrate_worms a c games (suc i) ws first.1) _
            (hydrate_worms-Gives games (suc i) ws first.1)
            (λ rest all. alike_cons w first.0 ws rest.0 same all))

  hydrate_same-WellFormed :
      (m : Match S) → WellFormed m.state → Gives (λ x. WellFormed x.state) (hydrate_same a c m)
  unfolding hydrate_same
  hydrate_same-WellFormed m h =
      let P : Match S → Type 0 = λ x. WellFormed x.state in
      if_elim (Gives P) (not m.has_store) (λ e. h)
        (λ e.
          bind-Gives (λ games. Unit) P (history_of a c) _ (any-Gives (history_of a c))
            (λ games u.
              bind-Gives (λ x. AllAlike m.state.worms x.0) P
                (hydrate_worms a c games 0 m.state.worms m.brain_versions) _
                (hydrate_worms-Gives games 0 m.state.worms m.brain_versions)
                (λ slots all. alike-Wf slots.0 all h)))

module _ {S : Type 0} (e : World S) (a : Archive S) where
  create_game-WellFormed :
      (m : Match S) → WellFormed m.state → Gives (λ x. WellFormed x.state) (create_game e a m)
  unfolding create_game
  create_game-WellFormed m h =
      let P : Match S → Type 0 = λ x. WellFormed x.state in
      bind-Gives (λ name. Unit) P (of_found (a.create m)) _ (of_found-Gives (a.create m))
        (λ name u.
          option_elim (Gives P) (persist e (record m { game_id = name }) [] none "active") (λ x. h)
            (λ reason x. tt))

  enter_game-WellFormed :
      (given : String) (m : Match S)
      → WellFormed m.state
      → Gives (λ x. WellFormed x.state) (enter_game e a given m)
  unfolding enter_game
  enter_game-WellFormed given m h =
      let P : Match S → Type 0 = λ x. WellFormed x.state in
      if_elim (Gives P) (not m.has_store) (λ x. h)
        (λ x.
          if_elim (Gives P) (str_eq given "") (λ y. create_game-WellFormed m h)
            (λ y. asked (a.game given)))
    where
      asked :
          (x : Found Game)
          → Gives
              (λ x. WellFormed x.state)
              (elim x [
                | found g ↦ ready m
                | missing ↦ create_game e a m
                | broken reason ↦ stops (store_error reason)
              ])
      asked (found g) = h
      asked missing = create_game-WellFormed m h
      asked (broken reason) = tt

  new_match-WellFormed :
      (c : Config S)
      → pos 1 <ℤ c.initial.width
      → pos 1 <ℤ c.initial.height
      → TerritoriesOk (board c.initial) c.initial.trails c.initial.territories
      → Gives (λ x. WellFormed x.state) (new_match e a c)
  unfolding new_match fresh_match
  new_match-WellFormed c wide high shown =
      let P : Match S → Type 0 = λ x. WellFormed x.state in
      option_elim (Gives P) (validate_config c)
        (λ x.
          option_elim (Gives P) (validate c.initial)
            (λ valid.
              bind-Gives P P (hydrate_same a c (fresh_match c)) _
                (hydrate_same-WellFormed a c (fresh_match c)
                  (validate-WellFormed c.initial valid wide high shown))
                (λ m h. named m h))
            (λ fault y. tt))
        (λ fault x. tt)
    where
      named :
          (m : Match S)
          → WellFormed m.state
          → Gives (λ x. WellFormed x.state) (enter_game e a c.game_id (name_local a m))
      named m h =
          enter_game-WellFormed c.game_id (name_local a m)
            (if_elim (λ (x : Match S). WellFormed x.state) (str_eq m.game_id "") (λ x. h) (λ x. h))

-- What the caller of a match may do.
pub data Call : Type 0 where
  advancing resolving stopping : Call
  submitting : Action → Call

module _ {S : Type 0} (e : World S) where
  unfoldable pub run_call : Match S → Call → Match S
  run_call m advancing = (advance e m).0
  run_call m resolving = (resolve e m).0
  run_call m stopping = (stop e m).0
  run_call m (submitting a) = (submit_human e m a).0

  unfoldable pub run_calls : Match S → List Call → Match S
  run_calls m [] = m
  run_calls m (call ∷ calls) = run_calls (run_call m call) calls

  run_call-WellFormed :
      (m : Match S) (call : Call) → WellFormed m.state → WellFormed (run_call m call).state
  unfolding run_call
  run_call-WellFormed m advancing h = advance-Keeps e m h
  run_call-WellFormed m resolving h = resolve-Keeps e m h
  run_call-WellFormed m stopping h = stop-Keeps e m h
  run_call-WellFormed m (submitting a) h = submit-Keeps e m a h

  run_calls-WellFormed :
      (m : Match S) (calls : List Call) → WellFormed m.state → WellFormed (run_calls m calls).state
  unfolding run_calls
  run_calls-WellFormed m [] h = h
  run_calls-WellFormed m (call ∷ calls) h =
      run_calls-WellFormed (run_call m call) calls (run_call-WellFormed m call h)

  -- A match that NewMatch returns, for a board at least two wide and two high whose stored
  -- territories show only trails and have an owner exactly when they are full, keeps the engine's
  -- invariant through any sequence of calls of Advance, Submit, Resolve and Stop, whatever the
  -- store and the controllers answer.
  pub run_calls-new_match :
      (a : Archive S) (c : Config S) (calls : List Call) {m : Match S}
      → new_match e a c ≡ ready m
      → pos 1 <ℤ c.initial.width
      → pos 1 <ℤ c.initial.height
      → TerritoriesOk (board c.initial) c.initial.trails c.initial.territories
      → WellFormed (run_calls m calls).state
  run_calls-new_match a c calls {m} started wide high shown =
      let P : Match S → Type 0 = λ x. WellFormed x.state in
      run_calls-WellFormed m calls
        (subst (Gives P) started (new_match-WellFormed e a c wide high shown))
