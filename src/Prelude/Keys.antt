-- ===== src/Prelude/Keys.antt =====
-- Go's maps, as association lists over keys with a Boolean equality.
use Prim.Native.Nat.{◌+◌}
use Prim.Native.String.{String}
use mathlib.Core.Path.{◌≡◌, refl, sym, ◌∙◌}
use mathlib.Core.Logic.{◌↔◌, ◌≢◌, inl, inr}
use mathlib.Core.Bool.{Bool, true, false}
use mathlib.Core.Option.{Option, none, some}
use mathlib.Core.List.{List, [], ◌∷◌}
use native.Mathlib.Omega.{arith}
use text.Mathlib.Text.{◌==◌ as text_eq}
use text.Mathlib.TextEquality.{eq_iff}
use worms_ng.Prelude.Tests.{if◌then◌else◌, Bool-cases}
use worms_ng.Prelude.Lists.{length, count_if, All}

-- Equality of keys, as Go's `==` decides it.
pub record Eq (A : Type 0) : Type 0 where
  pub beq : A → A → Bool
  pub beq_iff : (a b : A) → (beq a b ≡ true) ↔ (a ≡ b)

abbrev pub str_eq : String → String → Bool
str_eq = text_eq

pub str_eq_iff : (a b : String) → (str_eq a b ≡ true) ↔ (a ≡ b)
str_eq_iff = eq_iff

instance abbrev pub string_eq : Eq String
string_eq = record { beq = str_eq; beq_iff = str_eq_iff }

pub str_eq_self : (a : String) → str_eq a a ≡ true
str_eq_self a = (str_eq_iff a a).1 refl

abbrev pub Dict : Type 0 → Type 0 → Type 0
Dict K V = List (K × V)

module _ {K V : Type 0} ⦃e : Eq K⦄ where
  abbrev pub lookup : K → Dict K V → Option V
  lookup k [] = none
  lookup k ((j, v) ∷ m) = if e.beq j k then some v else lookup k m

  -- `m[k] = v`
  abbrev pub insert : K → V → Dict K V → Dict K V
  insert k v [] = (k, v) ∷ []
  insert k v ((j, w) ∷ m) = if e.beq j k then (k, v) ∷ m else (j, w) ∷ insert k v m

  -- `_, ok := m[k]`
  abbrev pub contains : K → Dict K V → Bool
  contains k m = elim (lookup k m) [ none ↦ false | some _ ↦ true ]

  pub lookup-insert :
      (j k : K) (v : V) (m : Dict K V)
      → lookup j (insert k v m) ≡ (if e.beq k j then some v else lookup j m)
  lookup-insert j k v [] = refl
  lookup-insert j k v ((i, w) ∷ m) =
      ground
        (arith, e.beq_iff k j, e.beq_iff i k, e.beq_iff i j, e.beq_iff j j, lookup-insert j k v m)

  pub lookup-insert_self : (k : K) (v : V) (m : Dict K V) → lookup k (insert k v m) ≡ some v
  lookup-insert_self k v m = rw (lookup-insert k k v m) (rw ((e.beq_iff k k).1 refl))

  pub lookup-insert_ne :
      (j k : K) (v : V) (m : Dict K V) → k ≢ j → lookup j (insert k v m) ≡ lookup j m
  lookup-insert_ne j k v m ne = ground (arith, lookup-insert j k v m, e.beq_iff k j)

  -- Writing the same value again changes nothing.
  pub insert_twice : (k : K) (v : V) (m : Dict K V) → insert k v (insert k v m) ≡ insert k v m
  insert_twice k v [] = rw ((e.beq_iff k k).1 refl)
  insert_twice k v ((i, w) ∷ m) = elim (Bool-cases (e.beq i k)) [
    | inl same ↦ rw same (rw ((e.beq_iff k k).1 refl))
    | inr differs ↦ rw differs (rw differs (rw (insert_twice k v m)))
  ]

  -- A new key adds an entry.
  pub length-insert_new :
      (k : K) (v : V) (m : Dict K V) → contains k m ≡ false → length (insert k v m) ≡ length m + 1
  length-insert_new k v [] h = refl
  length-insert_new k v ((i, w) ∷ m) h = ground (arith, length-insert_new k v m)

  -- An entry keeps its place, so a count over the entries changes by that entry alone.
  pub count_if-insert :
      (f : K × V → Bool) (k : K) (v old : V) (m : Dict K V)
      → lookup k m ≡ some old
      → count_if f (insert k v m) + (if f (k, old) then 1 else 0)
        ≡ count_if f m + (if f (k, v) then 1 else 0)
  count_if-insert f k v old [] h = cc
  count_if-insert f k v old ((i, w) ∷ m) h = elim (Bool-cases (e.beq i k)) [
    | inl same ↦ ground (arith, (e.beq_iff i k).0 same)
    | inr other ↦ ground (arith, count_if-insert f k v old m)
  ]

  pub count_if-insert_new :
      (f : K × V → Bool) (k : K) (v : V) (m : Dict K V)
      → lookup k m ≡ none
      → count_if f (insert k v m) ≡ count_if f m + (if f (k, v) then 1 else 0)
  count_if-insert_new f k v [] h = omega arith
  count_if-insert_new f k v ((i, w) ∷ m) h = ground (arith, count_if-insert_new f k v m)

  -- What holds of all entries and of the new one holds after the write.
  pub All-insert {κ} :
      (P : K × V → Type κ) (k : K) (v : V) (m : Dict K V)
      → All P m
      → P (k, v)
      → All P (insert k v m)
  All-insert P k v [] h p = (p, tt)
  All-insert P k v ((i, w) ∷ m) h p = elim (Bool-cases (e.beq i k)) [
    | inl same ↦ rw same (p, h.1)
    | inr other ↦ rw other (h.0, All-insert P k v m h.1 p)
  ]

  pub All-lookup {κ} :
      (P : K × V → Type κ) (k : K) {v : V} (m : Dict K V) → All P m → lookup k m ≡ some v → P (k, v)
  All-lookup P k [] h l = cc
  All-lookup P k {v = v} ((i, w) ∷ m) h l = elim (Bool-cases (e.beq i k)) [
    | inl same ↦
        let eq : lookup k ((i, w) ∷ m) ≡ some w = rw same in
        let ends : ◌≡◌ {A = K × V} (i, w) (k, v) = ground (arith, (e.beq_iff i k).0 same, eq) in
        rw ends at h.0
    | inr other ↦
        let eq : lookup k ((i, w) ∷ m) ≡ lookup k m = rw other in All-lookup P k m h.1 (sym eq ∙ l)
  ]
