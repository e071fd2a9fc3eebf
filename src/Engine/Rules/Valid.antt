-- ===== src/Engine/Rules/Valid.antt =====
-- Valid rule tables: what `ValidateRules` accepts, and that `NormalizeRules` produces it.
use mathlib.Core.Path.{fun_ext}
use worms_ng.Prelude.{
  ==_iff, All, Bool-cases, List, Option-cases, [], ap, arith, inl, inr, ltb, negsuc, none, pos,
  refl, some, subst, suc, sym, update, zero, ℕ, ◌+◌, ◌<◌, ◌==◌, ◌||◌, ◌↔◌, ◌∙◌, ◌∷◌, ◌≡◌, ◌≤◌, ◌-◌,
  ◌^◌, bit_and,
}
use worms_ng.Engine.Rules.{
  RuleTable, check_action, check_forced, check_table, force_all, forced_mask, install_forced,
  normal_action, normal_from, normalize_rules, validate_rules,
}
use worms_ng.Engine.Types.{Action, Direction, action_die, directions, ok, result_cases, to_action}
use worms_ng.Prelude.Bits.{has_bit}

-- What the checks of a table come to.
pub record ValidTable (r : RuleTable) : Type 0 where
  pub entries : (m : ℕ) → m < 64 → check_action m (r m) ≡ none
  pub forced : (d : Direction) → d < 6 → r (forced_mask d) ≡ pos d
  pub full : r 63 ≡ action_die

check_table_sound :
    (left m : ℕ) (r : RuleTable)
    → check_table left m r ≡ none
    → (j : ℕ) → m ≤ j
    → j < m + left
    → check_action j (r j) ≡ none
unfolding check_table
check_table_sound zero m r h j l u = absurd (omega arith)
check_table_sound (suc left) m r h j l u = elim (Option-cases (check_action m (r m))) [
  | inr (fault, found) ↦ absurd (ground arith)
  | inl fine ↦ elim (Bool-cases (m == j)) [
    | inl same ↦ let eq : m ≡ j = (==_iff m j).0 same in rw eq at fine
    | inr differs ↦
        check_table_sound left (m + 1) r (sym (rw (fine, check_table) refl) ∙ h) j (ground arith)
          (omega arith)
  ]
]

check_table_complete :
    (left m : ℕ) (r : RuleTable)
    → ((j : ℕ) → m ≤ j → j < m + left → check_action j (r j) ≡ none)
    → check_table left m r ≡ none
unfolding check_table
check_table_complete zero m r h = refl
check_table_complete (suc left) m r h =
    rw (h m (omega arith) (omega arith), check_table)
      (check_table_complete left (m + 1) r (λ j l u. h j (omega arith) (omega arith)))

forced_all :
    (r : RuleTable)
    → check_forced directions r ≡ none
    → (d : Direction) → d < 6
    → r (forced_mask d) ≡ pos d
unfolding check_forced
forced_all r h zero lt = ground arith
forced_all r h (suc zero) lt = ground arith
forced_all r h (suc (suc zero)) lt = ground arith
forced_all r h (suc (suc (suc zero))) lt = ground arith
forced_all r h (suc (suc (suc (suc zero)))) lt = ground arith
forced_all r h (suc (suc (suc (suc (suc zero))))) lt = ground arith
forced_all r h (suc (suc (suc (suc (suc (suc d)))))) lt = absurd (omega arith)

forced_none :
    (r : RuleTable)
    → ((d : Direction) → d < 6 → r (forced_mask d) ≡ pos d)
    → check_forced directions r ≡ none
unfolding check_forced
forced_none r h = ground (
  arith,
  h 0 (omega arith),
  h 1 (omega arith),
  h 2 (omega arith),
  h 3 (omega arith),
  h 4 (omega arith),
  h 5 (omega arith),
)

validate_parts :
    (r : RuleTable)
    → validate_rules r ≡ none
    → (check_table 64 0 r ≡ none) × (check_forced directions r ≡ none) × (r 63 ≡ action_die)
unfolding validate_rules
validate_parts r h = ground arith

validate_sound : (r : RuleTable) → validate_rules r ≡ none → ValidTable r
validate_sound r h =
    let (table, forced, full) = validate_parts r h in
    record {
      entries = λ m lt. check_table_sound 64 0 r table m (omega arith) (omega arith);
      forced = forced_all r forced;
      full = full;
    }

validate_complete : (r : RuleTable) → ValidTable r → validate_rules r ≡ none
unfolding validate_rules
validate_complete r v = ground (
  arith,
  check_table_complete 64 0 r (λ j l u. v.entries j (omega arith)),
  forced_none r v.forced,
  v.full,
)

pub validate_rules-ValidTable : (r : RuleTable) → (validate_rules r ≡ none) ↔ ValidTable r
validate_rules-ValidTable r = (validate_sound r, validate_complete r)

-- An entry is one of the three sentinels, or a direction whose spoke the mask leaves free.
pub IsEntry : ℕ → Action → Type 0
IsEntry m (negsuc a) = a < 3
IsEntry m (pos d) = (d < 6) × (bit_and m (2 ^ d) ≡ 0)

check_action_iff : (m : ℕ) (a : Action) → (check_action m a ≡ none) ↔ IsEntry m a
unfolding check_action has_bit IsEntry
check_action_iff m (pos d) = ground arith
check_action_iff m (negsuc a) = ground arith

forced_mask_lem : (d : Direction) → d < 6 → forced_mask d ≡ 63 - 2 ^ d
forced_mask_lem zero lt = refl
forced_mask_lem (suc zero) lt = refl
forced_mask_lem (suc (suc zero)) lt = refl
forced_mask_lem (suc (suc (suc zero))) lt = refl
forced_mask_lem (suc (suc (suc (suc zero)))) lt = refl
forced_mask_lem (suc (suc (suc (suc (suc zero))))) lt = refl
forced_mask_lem (suc (suc (suc (suc (suc (suc d)))))) lt = absurd (omega arith)

-- ValidateRules accepts exactly the tables whose 64 entries are directions from 0 to 5 whose bit
-- the mask lacks, or one of the three sentinels, whose mask without one spoke of the six names
-- that spoke, and whose full mask says DIE.
pub validate_rules_iff :
    (r : RuleTable)
    → (validate_rules r ≡ none)
      ↔ ((m : ℕ) → m < 64 → IsEntry m (r m))
        × ((d : Direction) → d < 6 → r (63 - 2 ^ d) ≡ pos d)
        × (r 63 ≡ negsuc 2)
validate_rules_iff r = (
  λ h.
      let v = validate_sound r h in
      (
        λ m lt. (check_action_iff m (r m)).0 (v.entries m lt),
        λ d lt. ap r (sym (forced_mask_lem d lt)) ∙ v.forced d lt,
        v.full,
      ),
  λ (entries, forced, full). validate_complete r (record {
    entries = λ m lt. (check_action_iff m (r m)).1 (entries m lt);
    forced = λ d lt. ap r (forced_mask_lem d lt) ∙ forced d lt;
    full = full;
  }),
)

-- Overwriting an entry by an acceptable one.
pub update_entries :
    (r : RuleTable) (k : ℕ) (a : Action)
    → ((m : ℕ) → m < 64 → check_action m (r m) ≡ none)
    → check_action k a ≡ none
    → (m : ℕ) → m < 64
    → check_action m (update r k a m) ≡ none
update_entries r k a h fine m lt = elim (Bool-cases (m == k)) [
  | inl same ↦ rw same (let eq : m ≡ k = (==_iff m k).0 same in rw eq fine)
  | inr differs ↦ rw differs (h m lt)
]

-- The forced entries are acceptable, so installing them keeps a table acceptable.
forced_valid :
    (r : RuleTable)
    → ((m : ℕ) → m < 64 → check_action m (r m) ≡ none)
    → (m : ℕ) → m < 64
    → check_action m (install_forced r m) ≡ none
unfolding install_forced check_action has_bit
forced_valid r h =
    update_entries _ 63 action_die
      (update_entries _ 31 (pos 5)
        (update_entries _ 47 (pos 4)
          (update_entries _ 55 (pos 3)
            (update_entries _ 59 (pos 2)
              (update_entries _ 61 (pos 1) (update_entries r 62 (pos 0) h refl) refl) refl)
            refl)
          refl)
        refl)
      refl

forced_entry : (r : RuleTable) (d : Direction) → d < 6 → install_forced r (forced_mask d) ≡ pos d
unfolding install_forced
forced_entry r zero lt = refl
forced_entry r (suc zero) lt = refl
forced_entry r (suc (suc zero)) lt = refl
forced_entry r (suc (suc (suc zero))) lt = refl
forced_entry r (suc (suc (suc (suc zero)))) lt = refl
forced_entry r (suc (suc (suc (suc (suc zero))))) lt = refl
forced_entry r (suc (suc (suc (suc (suc (suc d)))))) lt = absurd (omega arith)

pub install_forced_valid :
    (r : RuleTable)
    → ((m : ℕ) → m < 64 → check_action m (r m) ≡ none)
    → ValidTable (install_forced r)
unfolding install_forced
install_forced_valid r h = record {
  entries = forced_valid r h;
  forced = forced_entry r;
  full = refl;
}

-- What `NormalizeRules` leaves at an entry is acceptable.
normal_action_valid :
    (m : ℕ) (a : Action) {a' : Action} → normal_action m a ≡ some a' → check_action m a' ≡ none
unfolding normal_action check_action
normal_action_valid m (pos a) {a'} h = elim (Bool-cases (ltb 5 a || has_bit m a)) [
  | inl unsafe ↦ let fresh : a' ≡ negsuc 0 = ground arith in rw fresh refl
  | inr safe ↦ let same : a' ≡ pos a = ground arith in rw same (ground arith)
]
normal_action_valid m (negsuc a) {a'} h =
    let same : a' ≡ negsuc a = ground arith in rw same (ground arith)

normal_from_entries :
    (left m : ℕ) (r r' : RuleTable)
    → normal_from left m r ≡ ok r'
    → ((j : ℕ) → j < m → check_action j (r j) ≡ none)
    → (j : ℕ) → j < m + left
    → check_action j (r' j) ≡ none
unfolding normal_from
normal_from_entries zero m r r' h fine j lt =
    let same : r ≡ r' = cc in
    subst (λ (t : RuleTable). check_action j (t j) ≡ none) same (fine j (omega arith))
normal_from_entries (suc left) m r r' h fine j lt = elim (Option-cases (normal_action m (r m))) [
  | inl bad ↦ absurd (ground arith)
  | inr (a, found) ↦
      normal_from_entries left (m + 1) (update r m a) r' (sym (rw (found, normal_from) refl) ∙ h)
        (λ k below. elim (Bool-cases (k == m)) [
          | inl same ↦
              rw same
                (let eq : k ≡ m = (==_iff k m).0 same in rw eq (normal_action_valid m (r m) found))
          | inr differs ↦ rw differs (fine k (ground arith))
        ])
        j (omega arith)
]

-- A table that NormalizeRules returns is one that ValidateRules accepts, whatever was given.
pub normalize_rules-valid :
    (r : RuleTable) {r' : RuleTable} → normalize_rules r ≡ ok r' → validate_rules r' ≡ none
unfolding normalize_rules
normalize_rules-valid r {r'} h = elim (result_cases (normal_from 64 0 r)) [
  | inr (e, bad) ↦ absurd (ground arith)
  | inl (n, good) ↦
      let same : install_forced n ≡ r' = ground arith in
      let entries = normal_from_entries 64 0 r n good (λ j below. elim below [ ]) in
      subst (λ (t : RuleTable). validate_rules t ≡ none) same
        ((validate_rules-ValidTable (install_forced n)).1 (install_forced_valid n entries))
]

-- An acceptable entry is left alone.
normal_action_same : (m : ℕ) (a : Action) → check_action m a ≡ none → normal_action m a ≡ some a
unfolding normal_action check_action
normal_action_same m (pos a) h = ground arith
normal_action_same m (negsuc a) h = ground arith

update_same : (r : RuleTable) (m j : ℕ) → update r m (r m) j ≡ r j
update_same r m j = elim (Bool-cases (j == m)) [
  | inl same ↦ rw same (ap r (sym ((==_iff j m).0 same)))
  | inr differs ↦ rw differs
]

normal_from_same :
    (left m : ℕ) (r : RuleTable)
    → ((j : ℕ) → m ≤ j → j < m + left → check_action j (r j) ≡ none)
    → normal_from left m r ≡ ok r
unfolding normal_from
normal_from_same zero m r h = refl
normal_from_same (suc left) m r h =
    let kept : update r m (r m) ≡ r = fun_ext (update_same r m) in
    rw (normal_action_same m (r m) (h m (omega arith) (omega arith)), normal_from)
      (rw kept (normal_from_same left (m + 1) r (λ j l u. h j (omega arith) (omega arith))))

update_to : (r : RuleTable) (k : ℕ) (a : Action) → r k ≡ a → update r k a ≡ r
update_to r k a e = ap (λ (x : Action). update r k x) (sym e) ∙ fun_ext (update_same r k)

force_all_same :
    (ds : List Direction) (r : RuleTable)
    → All (λ d. r (forced_mask d) ≡ to_action d) ds
    → force_all ds r ≡ r
unfolding force_all
force_all_same [] r h = refl
force_all_same (d ∷ ds) r h =
    ap (force_all ds) (update_to r (forced_mask d) (to_action d) h.0) ∙ force_all_same ds r h.1

install_forced_same : (r : RuleTable) → ValidTable r → install_forced r ≡ r
unfolding install_forced
install_forced_same r v =
    let at = λ (d : Direction) (lt : d < 6). v.forced d lt in
    ap (λ (t : RuleTable). update t 63 action_die)
      (force_all_same directions r (
        at 0 (omega arith),
        (
          at 1 (omega arith),
          (
            at 2 (omega arith),
            (at 3 (omega arith), (at 4 (omega arith), (at 5 (omega arith), tt))),
          ),
        ),
      ))
    ∙ update_to r 63 action_die v.full

-- NormalizeRules returns a table that ValidateRules accepts unchanged.
pub normalize_rules-of_valid : (r : RuleTable) → validate_rules r ≡ none → normalize_rules r ≡ ok r
unfolding normalize_rules
normalize_rules-of_valid r h =
    let v = (validate_rules-ValidTable r).0 h in
    let same = normal_from_same 64 0 r (λ j l u. v.entries j (omega arith)) in
    rw (same, normalize_rules) (ap ok (install_forced_same r v))
