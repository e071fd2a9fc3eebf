-- ===== src/Tournament/HeldOut/Frozen.antt =====
-- What verifyFrozenVersions and the test of the seeds accept.
use worms_ng.Prelude.{
  All, Bool, Bool-cases, List, Option, Option-cases, String, [], any, ap, arith, eq_ℤ, eq_ℤ_iff,
  false, get_elem?, subst, if◌then◌else◌, inl, inr, is_empty, length, none, not, refl, some, str_eq,
  str_eq_iff, suc, sym, true, zero, ℕ, ℤ, ◌&&◌, ◌++◌, ◌+◌, ◌<◌, ◌==◌, ◌||◌, ◌∙◌, ◌∷◌, ◌≡◌, ◌≢◌, ◌⊎◌,
}
use worms_ng.Engine.Rules.{RuleTable}
use worms_ng.Engine.Types.{Worm}
use worms_ng.Prelude.Bits.{swept}
use worms_ng.Tournament.HeldOut.{
  Examiner, FrozenVersion, HeldOutCase, same_rules, verify_frozen, verify_version, verify_versions,
  version_ids, versions_required,
}
use worms_ng.Tournament.HeldOut.Cases.{training_of}

-- No case trains with the seed.
pub IsUnseen : {S : Type 0} → List (HeldOutCase S) → ℤ → Type 0
IsUnseen cases seed = All (λ c. All (λ t. seed ≢ t) c.training_seeds) cases

any_append :
    (seed : ℤ) (ts us : List ℤ)
    → any (eq_ℤ seed) (ts ++ us) ≡ false
    → All (λ t. seed ≢ t) ts × (any (eq_ℤ seed) us ≡ false)
any_append seed [] us e = (tt, e)
any_append seed (t ∷ ts) us e = elim (Bool-cases (eq_ℤ seed t)) [
  | inl seen ↦ ground (arith, seen, e)
  | inr new ↦
      let rest = any_append seed ts us (sym (rw new refl) ∙ e) in
      ((λ k. let seen = (eq_ℤ_iff seed t).1 k in cc, rest.0), rest.1)
]

pub training_of-IsUnseen :
    {S : Type 0} (cases : List (HeldOutCase S)) (seed : ℤ)
    → any (eq_ℤ seed) (training_of cases) ≡ false
    → IsUnseen cases seed
unfolding training_of IsUnseen
training_of-IsUnseen [] seed e = tt
training_of-IsUnseen (c ∷ cases) seed e =
    let (own, others) = any_append seed c.training_seeds (training_of cases) e in
    (own, training_of-IsUnseen cases seed others)

-- A chain of tests that finds no fault has passed the first of them, and the rest.
passed :
    {F : Type 0} (t : Bool) (fault : F) {rest : Option F}
    → (if t then some fault else rest) ≡ none
    → (t ≡ false) × (rest ≡ none)
passed true fault e = cc
passed false fault e = (refl, e)

present :
    {A F : Type 0} (o : Option A) (fault : F) {rest : A → Option F}
    → elim o [ none ↦ some fault | some v ↦ rest v ] ≡ none
    → (v : A) × (o ≡ some v) × (rest v ≡ none)
present none fault e = cc
present (some v) fault e = (v, refl, e)

from_negated : (t : Bool) → not t ≡ false → t ≡ true
from_negated true e = refl
from_negated false e = cc

same_table : (r r' : RuleTable) → same_rules r r' ≡ true → (m : ℕ) → m < 64 → r m ≡ r' m
unfolding same_rules
same_table r r' e m lt = (eq_ℤ_iff (r m) (r' m)).0 (swept 64 (λ m. eq_ℤ (r m) (r' m)) m lt e)

module _ {S : Type 0} (x : Examiner S) (expected : String) where
  -- A stored version of a frozen brain has the table of a frozen worm, and no other lineage.
  pub record IsVerified (id : String) (slot : Option Worm) : Type 0 where
    pub worm : Worm
    pub there : slot ≡ some worm
    pub frozen_worm : worm.frozen ≡ true
    pub version : FrozenVersion
    pub stored : x.version id ≡ some version
    pub frozen_brain : x.frozen version.brain_id ≡ some true
    pub rules : RuleTable
    pub loaded : version.rules ≡ some rules
    pub same : (m : ℕ) → m < 64 → rules m ≡ worm.rules m
    pub lineage : (version.rules_hash ≡ "") ⊎ (version.rules_hash ≡ expected)

  verify_version-IsVerified :
      (id : String) (slot : Option Worm)
      → verify_version x expected id slot ≡ none
      → IsVerified id slot
  unfolding verify_version
  verify_version-IsVerified id slot e =
      let (v, stored, e₁) = present (x.version id) _ e in
      let (w, there, e₂) = present slot _ e₁ in
      let (frozen_worm, e₃) = passed (not w.frozen) _ e₂ in
      let (kept, brain, e₄) = present (x.frozen v.brain_id) _ e₃ in
      let (frozen_brain, e₅) = passed (not kept) _ e₄ in
      let (rules, loaded, e₆) = present v.rules _ e₅ in
      let (same, e₇) = passed (not (same_rules rules w.rules)) _ e₆ in
      let (lineage, e₈) =
        passed (not (str_eq v.rules_hash "") && not (str_eq v.rules_hash expected)) _ e₇ in
      record {
        worm = w;
        there = there;
        frozen_worm = from_negated w.frozen frozen_worm;
        version = v;
        stored = stored;
        frozen_brain = brain ∙ ap (λ (t : Bool). some t) (from_negated kept frozen_brain);
        rules = rules;
        loaded = loaded;
        same = same_table rules w.rules (from_negated (same_rules rules w.rules) same);
        lineage = same_lineage v.rules_hash lineage;
      }
    where
      same_lineage :
          (hash : String)
          → (not (str_eq hash "") && not (str_eq hash expected)) ≡ false
          → (hash ≡ "") ⊎ (hash ≡ expected)
      same_lineage hash e = elim (Bool-cases (str_eq hash "")) [
        | inl blank ↦ inl ((str_eq_iff hash "").0 blank)
        | inr given ↦ inr ((str_eq_iff hash expected).0 (ground (arith, e, given)))
      ]

  verify_versions-IsVerified :
      (ids : List String) (k : ℕ) (ws : List Worm)
      → verify_versions x expected ids k ws ≡ none
      → (i : ℕ) (name : String) → get_elem? ids i ≡ some name
      → IsVerified name (get_elem? ws (k + i))
  unfolding verify_versions
  verify_versions-IsVerified [] k ws e i name g = cc
  verify_versions-IsVerified (id ∷ ids) k ws e i name g =
      elim (Option-cases (verify_version x expected id (get_elem? ws k))) [
        | inr (fault, found) ↦
            let clash : some fault ≡ none = sym (rw (found, verify_versions) refl) ∙ e in cc
        | inl fine ↦
            at_slot i g (verify_version-IsVerified id (get_elem? ws k) fine) (
              verify_versions-IsVerified ids (suc k) ws (sym (rw (fine, verify_versions) refl) ∙ e))
      ]
    where
      at_slot :
          (i : ℕ) {id' : String}
          → get_elem? (id ∷ ids) i ≡ some id'
          → IsVerified id (get_elem? ws k)
          → ((j : ℕ) (id' : String)
              → get_elem? ids j ≡ some id'
              → IsVerified id' (get_elem? ws (suc k + j)))
          → IsVerified id' (get_elem? ws (k + i))
      at_slot zero {id'} g one rest =
          let same : id ≡ id' = cc in
          let here : k ≡ k + 0 = omega arith in
          subst (λ (n : ℕ). IsVerified id' (get_elem? ws n)) here
            (subst (λ (n : String). IsVerified n (get_elem? ws k)) same one)
      at_slot (suc i) {id'} g one rest =
          let there : suc k + i ≡ k + suc i = omega arith in
          subst (λ (n : ℕ). IsVerified id' (get_elem? ws n)) there (rest i id' g)

-- The versions of a case: its list, or else its single one.
abbrev pub IsNamed : {S : Type 0} → HeldOutCase S → List String → Type 0
IsNamed c ids =
    (c.brain_version_ids ≢ []) × (ids ≡ c.brain_version_ids)
    ⊎ (c.brain_version_ids ≡ []) × (c.brain_version_id ≢ "") × (ids ≡ c.brain_version_id ∷ [])

-- A case names no version, or one of a frozen brain for each of its worms.
pub IsFrozen : {S : Type 0} → Examiner S → HeldOutCase S → Type 0
IsFrozen x c =
    (c.brain_version_ids ≡ []) × (c.brain_version_id ≡ "")
    ⊎ ((ids : List String) × IsNamed c ids
        × (c.has_store ≡ true)
        × (length ids ≡ length c.state.worms)
        × ((i : ℕ) (id : String)
            → get_elem? ids i ≡ some id
            → IsVerified x (x.rules_hash c.state) id (get_elem? c.state.worms i)))

version_ids-cases :
    {S : Type 0} (c : HeldOutCase S)
    → (is_empty (version_ids c) ≡ true) × (c.brain_version_ids ≡ []) × (c.brain_version_id ≡ "")
      ⊎ (is_empty (version_ids c) ≡ false) × IsNamed c (version_ids c)
version_ids-cases c = from_list c.brain_version_ids
  where
    from_list :
        (ids : List String)
        → let chosen : List String =
            if is_empty ids && not (str_eq c.brain_version_id "")
            then c.brain_version_id ∷ []
            else ids in
          (is_empty chosen ≡ true) × (ids ≡ []) × (c.brain_version_id ≡ "")
          ⊎ (is_empty chosen ≡ false)
            × ((ids ≢ []) × (chosen ≡ ids)
                ⊎ (ids ≡ []) × (c.brain_version_id ≢ "") × (chosen ≡ c.brain_version_id ∷ []))
    from_list (id ∷ ids) = inr (refl, inl (λ e. cc, refl))
    from_list [] = elim (Bool-cases (str_eq c.brain_version_id "")) [
      | inl blank ↦ rw blank (inl (refl, refl, (str_eq_iff c.brain_version_id "").0 blank))
      | inr given ↦
          rw given
            (inr (refl, inr (refl, (λ e. ground (arith, str_eq_iff c.brain_version_id "")), refl)))
    ]

pub verify_frozen-IsFrozen :
    {S : Type 0} (x : Examiner S) (c : HeldOutCase S)
    → verify_frozen x c (x.rules_hash c.state) ≡ none
    → IsFrozen x c
unfolding verify_frozen IsFrozen
verify_frozen-IsFrozen x c e = elim (version_ids-cases c) [
  | inl (none_given, no_list, no_id) ↦ inl (no_list, no_id)
  | inr (given, named) ↦
      let ids = version_ids c in
      let checked : (if not c.has_store || not (length ids == length c.state.worms)
            then some versions_required
            else verify_versions x (x.rules_hash c.state) ids 0 c.state.worms)
          ≡ none =
        sym (rw given refl) ∙ e in
      let (fits, e₁) =
        passed (not c.has_store || not (length ids == length c.state.worms)) versions_required
          checked in
      inr (
        ids,
        named,
        ground (arith, fits),
        ground (arith, fits),
        λ i id g.
            let here : 0 + i ≡ i = omega arith in
            subst (λ (n : ℕ). IsVerified x (x.rules_hash c.state) id (get_elem? c.state.worms n))
              here
              (verify_versions-IsVerified x (x.rules_hash c.state) ids 0 c.state.worms e₁ i id g),
      )
]
