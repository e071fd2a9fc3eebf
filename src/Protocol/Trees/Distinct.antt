-- ===== src/Protocol/Trees/Distinct.antt =====
-- What the pass over the tokens in protocol.go accepts: the values without a repeated key.
use worms_ng.Prelude.{
  All, List, Option-cases, String, [], any, arith, inl, inr, ◌∙◌, false, none, refl, str_eq,
  str_eq_iff, ◌↔◌, ◌∷◌, ◌≡◌,
}
use worms_ng.Protocol.Json.{Scan, Token, duplicate_field, failed, reject_duplicate_fields, scanned}
use worms_ng.Protocol.Trees.{
  Items, Json, Members, array, first_repeat, item, leaf, member, no_items, no_members, object,
  reject_duplicate_fields-tokens, repeated_item, repeated_key, string, value_tokens,
}

-- Each key of a list stands in it once.
pub Unique : List String → Type 0
Unique [] = Unit
Unique (k ∷ ks) = (any (str_eq k) ks ≡ false) × Unique ks

unfoldable pub keys : Members → List String
keys no_members = []
keys (member k j ms) = k ∷ keys ms

-- No object of the value, at any depth, has a key twice.
mutual
  pub DistinctFields : Json → Type 0
  DistinctFields leaf = Unit
  DistinctFields (string s) = Unit
  DistinctFields (object ms) = Unique (keys ms) × DistinctMembers ms
  DistinctFields (array js) = DistinctItems js

  pub DistinctMembers : Members → Type 0
  DistinctMembers no_members = Unit
  DistinctMembers (member k j ms) = DistinctFields j × DistinctMembers ms

  pub DistinctItems : Items → Type 0
  DistinctItems no_items = Unit
  DistinctItems (item j js) = DistinctFields j × DistinctItems js

-- None of the keys has been seen.
New : List String → List String → Type 0
New seen ks = All (λ k. any (str_eq k) seen ≡ false) ks

New-cons :
    (k : String) (seen ks : List String)
    → New (k ∷ seen) ks ↔ (any (str_eq k) ks ≡ false) × New seen ks
unfolding New
New-cons k seen [] = ground arith
New-cons k seen (j ∷ ks) = ground (arith, New-cons k seen ks, str_eq_iff j k, str_eq_iff k j)

New-nil : (ks : List String) → New [] ks
unfolding New
New-nil [] = tt
New-nil (k ∷ ks) = (refl, New-nil ks)

mutual
  unfolding first_repeat DistinctFields Unique keys New

  first_repeat_iff : (j : Json) → (first_repeat j ≡ none) ↔ DistinctFields j
  first_repeat_iff leaf = ground arith
  first_repeat_iff (string s) = ground arith
  first_repeat_iff (object ms) = ground (arith, repeated_key_iff [] ms, New-nil (keys ms))
  first_repeat_iff (array js) = repeated_item_iff js

  repeated_key_iff :
      (seen : List String) (ms : Members)
      → (repeated_key seen ms ≡ none) ↔ New seen (keys ms) × Unique (keys ms) × DistinctMembers ms
  repeated_key_iff seen no_members = ground arith
  repeated_key_iff seen (member k j ms) =
      ground (arith, first_repeat_iff j, repeated_key_iff (k ∷ seen) ms, New-cons k seen (keys ms))

  repeated_item_iff : (js : Items) → (repeated_item js ≡ none) ↔ DistinctItems js
  repeated_item_iff no_items = ground arith
  repeated_item_iff (item j js) = ground (arith, first_repeat_iff j, repeated_item_iff js)

scan_clash :
    {A : Type 0} {s : Scan} {ts : List Token} {k : String}
    → s ≡ scanned ts
    → s ≡ failed (duplicate_field k)
    → A
scan_clash e f = cc

-- On the tokens of a JSON value, in front of any others, the duplicate check stops behind the
-- value without an error exactly when no object in the value, at any depth, has a key twice; and
-- it fails with the error that names a duplicate field exactly when some object has.
pub reject_duplicate_fields_iff :
    (j : Json) (rest : List Token)
    → ((reject_duplicate_fields (value_tokens j rest) ≡ scanned rest) ↔ DistinctFields j)
      × (((k : String) × (reject_duplicate_fields (value_tokens j rest)
              ≡ failed (duplicate_field k)))
          ↔ ¬ DistinctFields j)
reject_duplicate_fields_iff j rest =
    let told = reject_duplicate_fields-tokens j rest in
    elim (Option-cases (first_repeat j)) [
      | inl none_twice ↦
          let fine = (first_repeat_iff j).0 none_twice in
          let done : reject_duplicate_fields (value_tokens j rest) ≡ scanned rest =
            told ∙ rw none_twice refl in
          ((λ e. fine, λ h. done), (λ bad. scan_clash done bad.1, λ other. absurd (other fine)))
      | inr (k, twice) ↦
          let bad : reject_duplicate_fields (value_tokens j rest) ≡ failed (duplicate_field k) =
            told ∙ rw twice refl in
          let other : ¬ DistinctFields j = λ h. let e = (first_repeat_iff j).1 h in cc in
          ((λ done. scan_clash done bad, λ h. absurd (other h)), (λ e. other, λ h. (k, bad)))
    ]
