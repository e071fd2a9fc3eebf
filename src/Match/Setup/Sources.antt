-- ===== src/Match/Setup/Sources.antt =====
-- Where the table of a SAME slot comes from, described without the loops of hydrateSAME.
use worms_ng.Prelude.{
  All, All-append, subst, Bool-cases, List, Option, Option-cases, String, [], ap, arith,
  if◌then◌else◌, eq_ℤ_iff, false, get_elem?, inl, inr, none, pos, refl, some, str_eq, str_eq_iff,
  sym, true, ℕ, ◌++◌, ◌∙◌, ◌∷◌, ◌↔◌, ◌≡◌, ◌≢◌, ◌⊎◌,
}
use worms_ng.Engine.Rules.{RuleTable, validate_rules}
use worms_ng.Engine.Types.{
  ControllerKind, Worm, controller_asleep, controller_auto, controller_named, controller_new,
  controller_wild, unknown_controller, controller_same,
}
use worms_ng.Match.Same.{is_same}
use worms_ng.Match.Setup.{
  Archive, BrainVersion, Config, Found, bad_table, broken, missing, not_completed, unreadable_rules,
  Game, GameSlot, Setup, find_slot, find_source, found, history_of, is_source, load_rules, of_found,
  or_default, profile_of, ready, stops, wants_history, ◌>>=◌,
}

-- An entry of a list of names that is missing or empty.
abbrev pub IsUnset : Option String → Type 0
IsUnset o = (o ≡ none) ⊎ (o ≡ some "")

-- A SAME worm whose slot has no version of its own.
abbrev pub Wants : {S : Type 0} → Config S → ℕ → Worm → Type 0
Wants c i w = (w.controller ≡ controller_same) × IsUnset (get_elem? c.brain_version_ids i)

-- The profile of a slot: the configured one, or else the name of the worm.
abbrev pub IsProfile : {S : Type 0} → Config S → ℕ → Worm → String → Type 0
IsProfile c i w profile =
    (profile ≢ "") × (get_elem? c.profile_ids i ≡ some profile)
    ⊎ IsUnset (get_elem? c.profile_ids i) × (profile ≡ w.id)

-- A participant that held the slot with the profile and a version.
pub record Held (i : ℕ) (wanted : String) (p : GameSlot) : Type 0 where
  pub slot : p.slot ≡ pos i
  pub profile : p.profile ≡ wanted
  pub version : p.brain_version_id ≢ ""

-- The participants of the games, in turn.
pub participants_of : List Game → List GameSlot
participants_of [] = []
participants_of (g ∷ games) = g.participants ++ participants_of games

-- The first in a list that held the slot.
pub record IsFirst (i : ℕ) (profile : String) (ps : List GameSlot) (p : GameSlot) : Type 0 where
  pub earlier : List GameSlot
  pub later : List GameSlot
  pub split : ps ≡ earlier ++ p ∷ later
  pub held : Held i profile p
  pub none_before : All (λ q. ¬ Held i profile q) earlier

-- The games in which the table is looked for: the previous game, or the finished ones.
abbrev pub IsHistory : {S : Type 0} → Archive S → Config S → List Game → Type 0
IsHistory a c games =
    (c.previous_game_id ≡ "") × (a.finished_games ≡ found games)
    ⊎ (c.previous_game_id ≢ "")
      × ((g : Game) × (a.game c.previous_game_id ≡ found g)
          × (g.status ≡ "finished")
          × (games ≡ g ∷ []))

is_same_iff : (k : ControllerKind) → (is_same k ≡ true) ↔ (k ≡ controller_same)
is_same_iff controller_new = (λ e. cc, λ e. cc)
is_same_iff controller_auto = (λ e. cc, λ e. cc)
is_same_iff controller_wild = (λ e. cc, λ e. cc)
is_same_iff controller_same = (λ e. refl, λ e. refl)
is_same_iff controller_named = (λ e. cc, λ e. cc)
is_same_iff controller_asleep = (λ e. cc, λ e. cc)
is_same_iff (unknown_controller name) = (λ e. cc, λ e. cc)

or_default-IsUnset : (o : Option String) → (str_eq (or_default o "") "" ≡ true) ↔ IsUnset o
or_default-IsUnset none = (λ e. inl refl, λ e. refl)
or_default-IsUnset (some v) = elim (Bool-cases (str_eq v "")) [
  | inl blank ↦
      (λ e. inr (ap (λ (x : String). some x) ((str_eq_iff v "").0 blank)), λ e. rw blank refl)
  | inr named ↦ (λ e. ground (arith, named, e), blank_only v named)
]
  where
    blank_only :
        (v : String)
        → str_eq v "" ≡ false
        → IsUnset (some v)
        → str_eq (or_default (some v) "") "" ≡ true
    blank_only v named (inl e) = cc
    blank_only v named (inr e) = ground (arith, e, str_eq_iff v "")

pub wants_history-Wants :
    {S : Type 0} (c : Config S) (i : ℕ) (w : Worm) → (wants_history c i w ≡ true) ↔ Wants c i w
wants_history-Wants c i w =
    ground (arith, is_same_iff w.controller, or_default-IsUnset (get_elem? c.brain_version_ids i))

pub profile_of-IsProfile :
    {S : Type 0} (c : Config S) (i : ℕ) (w : Worm) → IsProfile c i w (profile_of c i w)
profile_of-IsProfile c i w = from_entry (get_elem? c.profile_ids i)
  where
    from_entry :
        (o : Option String)
        → (or_default o w.id ≢ "") × (o ≡ some (or_default o w.id))
          ⊎ IsUnset o × (or_default o w.id ≡ w.id)
    from_entry none = inr (inl refl, refl)
    from_entry (some v) = elim (Bool-cases (str_eq v "")) [
      | inl blank ↦
          inr (inr (ap (λ (x : String). some x) ((str_eq_iff v "").0 blank)), rw blank refl)
      | inr named ↦ inl (rw named (λ e. ground (arith, str_eq_iff v "")), rw named refl)
    ]

is_source_iff :
    (i : ℕ) (profile : String) (p : GameSlot) → (is_source i profile p ≡ true) ↔ Held i profile p
unfolding is_source
is_source_iff i profile p = (
  λ e. record {
    slot = (eq_ℤ_iff p.slot (pos i)).0 (ground (arith, e));
    profile = (str_eq_iff p.profile profile).0 (ground (arith, e));
    version = λ k. ground (arith, e, str_eq_iff p.brain_version_id "");
  },
  λ h. ground (
    arith,
    (eq_ℤ_iff p.slot (pos i)).1 h.slot,
    (str_eq_iff p.profile profile).1 h.profile,
    str_eq_iff p.brain_version_id "",
    h.version,
  ),
)

of_found-found : {A : Type 0} (x : Found A) {a : A} → of_found x ≡ ready a → x ≡ found a
of_found-found (found b) e = cc
of_found-found missing e = cc
of_found-found (broken reason) e = cc

pub history_of-IsHistory :
    {S : Type 0} (a : Archive S) (c : Config S) {games : List Game}
    → history_of a c ≡ ready games
    → IsHistory a c games
unfolding history_of
history_of-IsHistory a c {games} e = elim (Bool-cases (str_eq c.previous_game_id "")) [
  | inl blank ↦
      let listed : of_found a.finished_games ≡ ready games = sym (rw blank refl) ∙ e in
      inl ((str_eq_iff c.previous_game_id "").0 blank, of_found-found a.finished_games listed)
  | inr named ↦ inr (
    λ k. ground (arith, str_eq_iff c.previous_game_id ""),
    finished_game (a.game c.previous_game_id) (sym (rw named refl) ∙ e),
  )
]
  where
    finished_game :
        (x : Found Game)
        → (of_found x >>= λ g.
            if str_eq g.status "finished" then ready (g ∷ []) else stops not_completed)
          ≡ ready games
        → (g : Game) × (x ≡ found g) × (g.status ≡ "finished") × (games ≡ g ∷ [])
    finished_game (found g) e = elim (Bool-cases (str_eq g.status "finished")) [
      | inl over ↦
          let same : ready (g ∷ []) ≡ ready games = sym (rw over refl) ∙ e in
          (g, refl, (str_eq_iff g.status "finished").0 over, cc)
      | inr other ↦ let clash : stops not_completed ≡ ready games = sym (rw other refl) ∙ e in cc
    ]
    finished_game missing e = cc
    finished_game (broken reason) e = cc

pub load_rules-found :
    {S : Type 0} (a : Archive S) (id : String) {name : String} {rules : RuleTable}
    → load_rules a id ≡ ready (name, rules)
    → (v : BrainVersion) × (a.version id ≡ found v) × (v.id ≡ name) × (v.rules ≡ some rules)
unfolding load_rules
load_rules-found a id {name} {rules} e = from_version (a.version id) e
  where
    from_version :
        (x : Found BrainVersion)
        → ◌>>=◌ {B = String × RuleTable} (of_found x) (λ v. elim v.rules [
          | none ↦ stops unreadable_rules
          | some r ↦ elim (validate_rules r) [
            | none ↦ ready (v.id, r)
            | some fault ↦ stops (bad_table fault)
          ]
        ])
          ≡ ready (name, rules)
        → (v : BrainVersion) × (x ≡ found v) × (v.id ≡ name) × (v.rules ≡ some rules)
    from_version (found v) e = elim (Option-cases v.rules) [
      | inl unread ↦
          let clash : ◌≡◌ {A = Setup (String × RuleTable)} (stops unreadable_rules)
              (ready (name, rules)) =
            sym (rw unread refl) ∙ e in
          cc
      | inr (r, read) ↦ elim (Option-cases (validate_rules r)) [
        | inl fine ↦
            let same : ready (v.id, r) ≡ ready (name, rules) = sym (rw read (rw fine refl)) ∙ e in
            (v, refl, cc, read ∙ cc)
        | inr (fault, bad) ↦
            let clash : ◌≡◌ {A = Setup (String × RuleTable)} (stops (bad_table fault))
                (ready (name, rules)) =
              sym (rw read (rw bad refl)) ∙ e in
            cc
      ]
    ]
    from_version missing e = cc
    from_version (broken reason) e = cc

-- The search through the lists.
no_slot :
    (i : ℕ) (profile : String) (ps : List GameSlot)
    → find_slot i profile ps ≡ none
    → All (λ q. ¬ Held i profile q) ps
unfolding find_slot
no_slot i profile [] e = tt
no_slot i profile (p ∷ ps) e = elim (Bool-cases (is_source i profile p)) [
  | inl source ↦ ground (arith, source, e)
  | inr other ↦ (
    λ h. ground (arith, (is_source_iff i profile p).1 h, other),
    no_slot i profile ps (sym (rw other refl) ∙ e),
  )
]

find_slot-IsFirst :
    (i : ℕ) (profile : String) (ps : List GameSlot) {p : GameSlot}
    → find_slot i profile ps ≡ some p
    → IsFirst i profile ps p
unfolding find_slot
find_slot-IsFirst i profile [] e = cc
find_slot-IsFirst i profile (q ∷ ps) {p} e = elim (Bool-cases (is_source i profile q)) [
  | inl source ↦
      let same' : some q ≡ some p = sym (rw source refl) ∙ e in
      let same : q ≡ p = cc in
      subst (IsFirst i profile (q ∷ ps)) same (record {
        earlier = [];
        later = ps;
        split = refl;
        held = (is_source_iff i profile q).0 source;
        none_before = tt;
      })
  | inr other ↦
      let rest = find_slot-IsFirst i profile ps (sym (rw other refl) ∙ e) in
      record {
        earlier = q ∷ rest.earlier;
        later = rest.later;
        split = ap (λ l. q ∷ l) rest.split;
        held = rest.held;
        none_before =
            (λ h. ground (arith, (is_source_iff i profile q).1 h, other), rest.none_before);
      }
]

append_assoc : {A : Type 0} (xs ys zs : List A) → (xs ++ ys) ++ zs ≡ xs ++ (ys ++ zs)
append_assoc [] ys zs = refl
append_assoc (x ∷ xs) ys zs = ap (λ l. x ∷ l) (append_assoc xs ys zs)

pub find_source-IsFirst :
    (i : ℕ) (profile : String) (games : List Game) {p : GameSlot}
    → find_source i profile games ≡ some p
    → IsFirst i profile (participants_of games) p
unfolding find_source participants_of
find_source-IsFirst i profile [] e = cc
find_source-IsFirst i profile (g ∷ games) {p} e =
    elim (Option-cases (find_slot i profile g.participants)) [
      | inl absent ↦
          let rest =
            find_source-IsFirst i profile games (sym (rw (absent, find_source) refl) ∙ e) in
          record {
            earlier = g.participants ++ rest.earlier;
            later = rest.later;
            split =
                ap (λ l. g.participants ++ l) rest.split
                ∙ sym (append_assoc g.participants rest.earlier (p ∷ rest.later));
            held = rest.held;
            none_before =
                All-append (λ q. ¬ Held i profile q) g.participants rest.earlier
                  (no_slot i profile g.participants absent) rest.none_before;
          }
      | inr (q, there) ↦
          let same' : some q ≡ some p = sym (rw (there, find_source) refl) ∙ e in
          let same : q ≡ p = cc in
          let here = find_slot-IsFirst i profile g.participants (there ∙ ap (λ x. some x) same) in
          record {
            earlier = here.earlier;
            later = here.later ++ participants_of games;
            split =
                ap (λ l. l ++ participants_of games) here.split
                ∙ append_assoc here.earlier (p ∷ here.later) (participants_of games);
            held = here.held;
            none_before = here.none_before;
          }
    ]
