-- ===== src/Engine/Rules/Setup.antt =====
-- `ConfigureWorm`: the wild table is valid for every seed, and a setup succeeds with a valid table
-- or changes nothing.
use native.Mathlib.Nat.{mod-lt}
use worms_ng.Prelude.{
  ==_iff, All, Bool, Bool-cases, List, [], arith, false, get_or, get_or-All, inl, inr, is_empty,
  length, length_pos, none, refl, suc, true, update, zero, ℕ, ◌%◌, ◌+◌, ◌<◌, ◌==◌, ◌∷◌, ◌≡◌, ◌≢◌,
  ◌⊎◌,
}
use worms_ng.Engine.Rules.{
  RuleTable, check_action, configure_worm, exits, fill_from, fill_wild, install, install_forced,
  prepare, validate_rules, xorshift,
}
use worms_ng.Engine.Rules.Valid.{install_forced_valid, validate_rules-ValidTable}
use worms_ng.Engine.Types.{
  Action, ControllerKind, Direction, Worm, action_die, action_do_ai, action_get_new,
  controller_asleep, controller_auto, controller_named, controller_new, controller_same,
  controller_wild, directions, no_move, to_action, unknown_controller, valid_kind,
}
use worms_ng.Prelude.Bits.{has_bit}

-- The exits of a mask are directions that it has free.
exits-All :
    (m : ℕ) (ds : List Direction)
    → All (λ d. d < 6) ds
    → All (λ d. (d < 6) × (has_bit m d ≡ false)) (exits m ds)
unfolding exits
exits-All m [] h = tt
exits-All m (d ∷ ds) h = elim (Bool-cases (has_bit m d)) [
  | inl taken ↦ rw taken (exits-All m ds h.1)
  | inr free ↦ rw free ((h.0, free), exits-All m ds h.1)
]

free_action :
    (m : ℕ) (d : Direction) → d < 6 → has_bit m d ≡ false → check_action m (to_action d) ≡ none
unfolding check_action
free_action m d lt free = ground arith

die_fine : (m : ℕ) → check_action m action_die ≡ none
unfolding check_action
die_fine m = refl

-- One more acceptable entry.
pub entries_suc :
    (r : RuleTable) (m : ℕ) (a : Action)
    → ((j : ℕ) → j < m → check_action j (r j) ≡ none)
    → check_action m a ≡ none
    → (j : ℕ) → j < m + 1
    → check_action j (update r m a j) ≡ none
entries_suc r m a fine good j lt = elim (Bool-cases (j == m)) [
  | inl same ↦ rw same (let eq : j ≡ m = (==_iff j m).0 same in rw eq good)
  | inr differs ↦ rw differs (fine j (ground arith))
]

-- The loop of `fillWild` writes acceptable entries.
fill_from_entries :
    (left m x : ℕ) (r : RuleTable)
    → ((j : ℕ) → j < m → check_action j (r j) ≡ none)
    → (j : ℕ) → j < m + left
    → check_action j (fill_from left m x r j) ≡ none
unfolding fill_from
fill_from_entries zero m x r fine j lt = fine j (omega arith)
fill_from_entries (suc left) m x r fine j lt =
    let out = exits m directions in
    elim (Bool-cases (m == 63)) [
      | inl last ↦ rw last (
          fill_from_entries left (m + 1) x (update r m action_die)
            (entries_suc r m action_die fine (die_fine m)) j (omega arith))
      | inr earlier ↦ elim (Bool-cases (is_empty out)) [
        | inl closed ↦ rw earlier (
            rw closed (
              fill_from_entries left (m + 1) x (update r m action_die)
                (entries_suc r m action_die fine (die_fine m)) j (omega arith)))
        | inr spoke ↦
            let y = xorshift x in
            let drawn =
              get_or-All (λ d. (d < 6) × (has_bit m d ≡ false)) out (y % length out) 0
                (exits-All m directions (omega arith)) (mod-lt y (length_pos out spoke)) in
            let chosen = to_action (get_or out (y % length out) 0) in
            rw earlier (
              rw spoke (
                fill_from_entries left (m + 1) y (update r m chosen)
                  (entries_suc r m chosen fine
                    (free_action m (get_or out (y % length out) 0) drawn.0 drawn.1))
                  j (omega arith)))
      ]
    ]

-- The table that fillWild and installForced write is one that ValidateRules accepts, for every
-- seed.
pub fill_wild-valid :
    (r : RuleTable) (seed : ℕ) → validate_rules (install_forced (fill_wild r seed)) ≡ none
unfolding fill_wild
fill_wild-valid r seed = (validate_rules-ValidTable (install_forced (fill_from 64 0 seed r))).1 (
    install_forced_valid (fill_from 64 0 seed r)
      (fill_from_entries 64 0 seed r (λ j below. elim below [ ])))

constant_valid :
    (a : Action)
    → ((m : ℕ) → check_action m a ≡ none)
    → validate_rules (install_forced (λ m. a)) ≡ none
constant_valid a h =
    (validate_rules-ValidTable (install_forced (λ m. a))).1
      (install_forced_valid (λ m. a) (λ m lt. h m))

-- The kinds whose setup writes the whole table.
abbrev pub writes_table : ControllerKind → Bool
writes_table controller_new = true
writes_table controller_auto = true
writes_table controller_wild = true
writes_table _ = false

installed_valid :
    (kind : ControllerKind) (seed : ℕ) (w : Worm)
    → writes_table kind ≡ true
    → validate_rules (install kind seed w).rules ≡ none
unfolding install
installed_valid controller_new seed w h =
    constant_valid action_get_new (unfold check_action in λ m. refl)
installed_valid controller_auto seed w h =
    constant_valid action_do_ai (unfold check_action in λ m. refl)
installed_valid controller_wild seed w h = fill_wild-valid w.rules seed
installed_valid controller_same seed w h = cc
installed_valid controller_named seed w h = cc
installed_valid controller_asleep seed w h = cc
installed_valid (unknown_controller k) seed w h = cc

installed_fields :
    (kind : ControllerKind) (seed : ℕ) (w : Worm)
    → writes_table kind ≡ true
    → let w' = install kind seed (prepare w kind seed) in
      (w'.alive ≡ true) × (w'.controller ≡ kind) × (w'.previous ≡ no_move)
unfolding install prepare
installed_fields controller_new seed w h = (refl, refl, refl)
installed_fields controller_auto seed w h = (refl, refl, refl)
installed_fields controller_wild seed w h = (refl, refl, refl)
installed_fields controller_same seed w h = cc
installed_fields controller_named seed w h = cc
installed_fields controller_asleep seed w h = cc
installed_fields (unknown_controller k) seed w h = cc

valid_of_writes : (kind : ControllerKind) → writes_table kind ≡ true → valid_kind kind ≡ true
unfolding valid_kind
valid_of_writes kind h = ground arith

configured :
    (w : Worm) (kind : ControllerKind) (seed : ℕ)
    → writes_table kind ≡ true
    → validate_rules (install kind seed (prepare w kind seed)).rules ≡ none
    → configure_worm w kind seed ≡ (install kind seed (prepare w kind seed), none)
unfolding configure_worm
configured w kind seed h fine = rw (valid_of_writes kind h) (rw (fine, configure_worm) refl)

-- A NEW, AUTO or WILD setup by ConfigureWorm succeeds for every worm and seed, and leaves a live
-- worm of that kind, without a previous direction, whose table ValidateRules accepts.
pub configure_worm-writes :
    (w : Worm) (kind : ControllerKind) (seed : ℕ)
    → writes_table kind ≡ true
    → let (w', e) = configure_worm w kind seed in
      (e ≡ none)
      × (w'.alive ≡ true)
      × (w'.controller ≡ kind)
      × (w'.previous ≡ no_move)
      × (validate_rules w'.rules ≡ none)
configure_worm-writes w kind seed h =
    let fine = installed_valid kind seed (prepare w kind seed) h in
    let (live, kept, fresh) = installed_fields kind seed w h in
    rw (configured w kind seed h fine) (refl, live, kept, fresh, fine)

-- ConfigureWorm, for any kind, succeeds with a table that ValidateRules accepts, or returns an
-- error and leaves the worm as it was.
pub configure_worm_outcome :
    (w : Worm) (kind : ControllerKind) (seed : ℕ)
    → let (w', e) = configure_worm w kind seed in
      (e ≡ none) × (validate_rules w'.rules ≡ none) ⊎ (e ≢ none) × (w' ≡ w)
unfolding configure_worm
configure_worm_outcome w kind seed = ground arith
