-- ===== src/Protocol/Trees.antt =====
-- What the pass over the tokens in protocol.go says of the tokens of a JSON value.
pub mod Distinct
use worms_ng.Prelude.{
  Bool-cases, List, Option, String, [], any, ap, arith, false, if◌then◌else◌, inl, inr, length,
  none, refl, some, str_eq, suc, true, zero, ℕ, ◌*◌, ◌+◌, ◌∙◌, ◌∷◌, ◌≡◌, ◌≤◌,
}
use worms_ng.Protocol.Json.{
  Scan, Token, and_then, close_array, close_object, duplicate_field, end_array, end_object, failed,
  more, open_array, open_object, reject_duplicate_fields, scalar, scan_items, scan_members,
  scan_value, scanned, text,
}

-- A JSON value, with its strings, its other scalars, and its members in their order.
mutual
  pub data Json : Type 0 where
    leaf : Json
    string : String → Json
    object : Members → Json
    array : Items → Json

  pub data Members : Type 0 where
    no_members : Members
    member : String → Json → Members → Members

  pub data Items : Type 0 where
    no_items : Items
    item : Json → Items → Items

-- The tokens of a value, in front of `rest`.
unfoldable mutual
  pub value_tokens : Json → List Token → List Token
  value_tokens leaf rest = scalar ∷ rest
  value_tokens (string s) rest = text s ∷ rest
  value_tokens (object ms) rest = open_object ∷ member_tokens ms rest
  value_tokens (array js) rest = open_array ∷ item_tokens js rest

  pub member_tokens : Members → List Token → List Token
  member_tokens no_members rest = close_object ∷ rest
  member_tokens (member k j ms) rest = text k ∷ value_tokens j (member_tokens ms rest)

  pub item_tokens : Items → List Token → List Token
  item_tokens no_items rest = close_array ∷ rest
  item_tokens (item j js) rest = value_tokens j (item_tokens js rest)

abbrev pub or_key : Option String → Option String → Option String
or_key (some k) rest = some k
or_key none rest = rest

-- The first member in the text that repeats a key of its object.
unfoldable mutual
  pub first_repeat : Json → Option String
  first_repeat leaf = none
  first_repeat (string s) = none
  first_repeat (object ms) = repeated_key [] ms
  first_repeat (array js) = repeated_item js

  pub repeated_key : List String → Members → Option String
  repeated_key seen no_members = none
  repeated_key seen (member k j ms) =
      let rest = or_key (first_repeat j) (repeated_key (k ∷ seen) ms) in
      if any (str_eq k) seen then some k else rest

  pub repeated_item : Items → Option String
  repeated_item no_items = none
  repeated_item (item j js) = or_key (first_repeat j) (repeated_item js)

unfoldable mutual
  pub size : Json → ℕ
  size leaf = 1
  size (string s) = 1
  size (object ms) = member_size ms + 1
  size (array js) = item_size js + 1

  pub member_size : Members → ℕ
  member_size no_members = 1
  member_size (member k j ms) = size j + member_size ms + 1

  pub item_size : Items → ℕ
  item_size no_items = 1
  item_size (item j js) = size j + item_size js + 1

-- The end of a pass in front of `rest` that finds a repeated key, or none.
verdict : Option String → List Token → Scan
verdict none rest = scanned rest
verdict (some k) rest = failed (duplicate_field k)

verdict_lem :
    (o : Option String) (rest : List Token)
    → verdict o rest ≡ elim o [ none ↦ scanned rest | some k ↦ failed (duplicate_field k) ]
unfolding verdict
verdict_lem none rest = refl
verdict_lem (some k) rest = refl

-- A verdict, and a pass over what is left.
verdict-then :
    (a b : Option String) (s : Scan) (ts rest : List Token) (f : List Token → Scan)
    → s ≡ verdict a ts
    → f ts ≡ verdict b rest
    → and_then s f ≡ verdict (or_key a b) rest
unfolding verdict
verdict-then none b s ts rest f h k = ap (λ s. and_then s f) h ∙ k
verdict-then (some key) b s ts rest f h k = ap (λ s. and_then s f) h

more-tokens : (j : Json) (rest : List Token) → more (value_tokens j rest) ≡ true
unfolding more value_tokens
more-tokens leaf rest = refl
more-tokens (string s) rest = refl
more-tokens (object ms) rest = refl
more-tokens (array js) rest = refl

more_close : (rest : List Token) → more (close_array ∷ rest) ≡ false
unfolding more
more_close rest = refl

mutual
  unfolding scan_value scan_members scan_items end_object end_array value_tokens first_repeat size
      verdict

  scan_value-tokens :
      (n : ℕ) (j : Json) (rest : List Token)
      → size j ≤ n
      → scan_value n (value_tokens j rest) ≡ verdict (first_repeat j) rest
  scan_value-tokens zero leaf rest h = absurd (omega (arith, h))
  scan_value-tokens zero (string s) rest h = absurd (omega (arith, h))
  scan_value-tokens zero (object ms) rest h = absurd (omega (arith, h))
  scan_value-tokens zero (array js) rest h = absurd (omega (arith, h))
  scan_value-tokens (suc n) leaf rest h = refl
  scan_value-tokens (suc n) (string s) rest h = refl
  scan_value-tokens (suc n) (object ms) rest h = scan_members-tokens n [] ms rest (omega (arith, h))
  scan_value-tokens (suc n) (array js) rest h = scan_items-tokens n js rest (omega (arith, h))

  scan_members-tokens :
      (n : ℕ) (seen : List String) (ms : Members) (rest : List Token)
      → member_size ms ≤ n
      → scan_members n seen (member_tokens ms rest) ≡ verdict (repeated_key seen ms) rest
  scan_members-tokens zero seen no_members rest h = absurd (omega (arith, h))
  scan_members-tokens zero seen (member k j ms) rest h = absurd (omega (arith, h))
  scan_members-tokens (suc n) seen no_members rest h = refl
  scan_members-tokens (suc n) seen (member k j ms) rest h =
      elim (Bool-cases (any (str_eq k) seen)) [
        | inl again ↦ rw again refl
        | inr new ↦ rw new (
            verdict-then (first_repeat j) (repeated_key (k ∷ seen) ms) _ (member_tokens ms rest)
              rest (scan_members n (k ∷ seen))
              (scan_value-tokens n j (member_tokens ms rest) (omega (arith, h)))
              (scan_members-tokens n (k ∷ seen) ms rest (omega (arith, h))))
      ]

  scan_items-tokens :
      (n : ℕ) (js : Items) (rest : List Token)
      → item_size js ≤ n
      → scan_items n (item_tokens js rest) ≡ verdict (repeated_item js) rest
  scan_items-tokens zero no_items rest h = absurd (omega (arith, h))
  scan_items-tokens zero (item j js) rest h = absurd (omega (arith, h))
  scan_items-tokens (suc n) no_items rest h = rw (more_close rest) refl
  scan_items-tokens (suc n) (item j js) rest h = rw (more-tokens j (item_tokens js rest)) (
      verdict-then (first_repeat j) (repeated_item js) _ (item_tokens js rest) rest (scan_items n)
        (scan_value-tokens n j (item_tokens js rest) (omega (arith, h)))
        (scan_items-tokens n js rest (omega (arith, h))))

-- The fuel of `rejectDuplicateFields` covers the value.
mutual
  unfolding value_tokens size

  size-le :
      (j : Json) (rest : List Token)
      → size j + 1 + 2 * length rest ≤ 2 * length (value_tokens j rest)
  size-le leaf rest = omega arith
  size-le (string s) rest = omega arith
  size-le (object ms) rest = omega (arith, member_size-le ms rest)
  size-le (array js) rest = omega (arith, item_size-le js rest)

  member_size-le :
      (ms : Members) (rest : List Token)
      → member_size ms + 2 * length rest ≤ 2 * length (member_tokens ms rest)
  member_size-le no_members rest = omega arith
  member_size-le (member k j ms) rest =
      omega (arith, size-le j (member_tokens ms rest), member_size-le ms rest)

  item_size-le :
      (js : Items) (rest : List Token)
      → item_size js + 2 * length rest ≤ 2 * length (item_tokens js rest)
  item_size-le no_items rest = omega arith
  item_size-le (item j js) rest =
      omega (arith, size-le j (item_tokens js rest), item_size-le js rest)

pub reject_duplicate_fields-tokens :
    (j : Json) (rest : List Token)
    → reject_duplicate_fields (value_tokens j rest)
      ≡ elim (first_repeat j) [ none ↦ scanned rest | some k ↦ failed (duplicate_field k) ]
unfolding reject_duplicate_fields
reject_duplicate_fields-tokens j rest =
    let n = 2 * length (value_tokens j rest) + 1 in
    scan_value-tokens n j rest (omega (arith, size-le j rest)) ∙ verdict_lem (first_repeat j) rest
