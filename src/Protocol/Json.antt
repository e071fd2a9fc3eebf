-- ===== src/Protocol/Json.antt =====
-- The strict decoding of protocol.go: the pass over the tokens that refuses a repeated field, and
-- the typed decoding behind it, which encoding/json does and is a parameter.
use worms_ng.Prelude.{
  Bool, List, Option, String, [], any, false, if◌then◌else◌, length, none, some, str_eq, suc, true,
  zero, ℕ, ◌*◌, ◌+◌, ◌∷◌,
}
use worms_ng.Protocol.{Fault}

-- What `Decoder.Token` returns in turn; `broken` is a token with an error. The list ends with the
-- input, where `Token` returns an error and `More` is false.
pub data Token : Type 0 where
  open_object close_object open_array close_array scalar broken : Token
  text : String → Token

pub data JsonFault : Type 0 where
  token_error key_not_string open_ended bad_delimiter : JsonFault
  duplicate_field : String → JsonFault

-- How a pass ends: with the tokens that are left, with an error, or without fuel.
pub data Scan : Type 0 where
  scanned : List Token → Scan
  failed : JsonFault → Scan
  out_of_fuel : Scan

-- `Decoder.More`
unfoldable pub more : List Token → Bool
more [] = false
more (close_object ∷ ts) = false
more (close_array ∷ ts) = false
more (t ∷ ts) = true

abbrev pub and_then : Scan → (List Token → Scan) → Scan
and_then (scanned ts) f = f ts
and_then (failed e) f = failed e
and_then out_of_fuel f = out_of_fuel

-- The end of an object and of an array: the last `Token` of the case.
unfoldable pub end_object : List Token → Scan
end_object (close_object ∷ ts) = scanned ts
end_object (broken ∷ ts) = failed token_error
end_object (t ∷ ts) = failed open_ended
end_object [] = failed token_error

unfoldable pub end_array : List Token → Scan
end_array (close_array ∷ ts) = scanned ts
end_array (broken ∷ ts) = failed token_error
end_array (t ∷ ts) = failed open_ended
end_array [] = failed token_error

-- `scanJSONValue` with its two loops: the members of an object after the keys `seen`, and the items
-- of an array. The fuel bounds the calls that are nested or behind each other.
unfoldable mutual
  pub scan_value : ℕ → List Token → Scan
  scan_value zero ts = out_of_fuel
  scan_value (suc n) [] = failed token_error
  scan_value (suc n) (open_object ∷ ts) = scan_members n [] ts
  scan_value (suc n) (open_array ∷ ts) = scan_items n ts
  scan_value (suc n) (close_object ∷ ts) = failed bad_delimiter
  scan_value (suc n) (close_array ∷ ts) = failed bad_delimiter
  scan_value (suc n) (scalar ∷ ts) = scanned ts
  scan_value (suc n) (text s ∷ ts) = scanned ts
  scan_value (suc n) (broken ∷ ts) = failed token_error

  pub scan_members : ℕ → List String → List Token → Scan
  scan_members zero seen ts = out_of_fuel
  scan_members (suc n) seen (text key ∷ ts) =
      let rest = and_then (scan_value n ts) (scan_members n (key ∷ seen)) in
      if any (str_eq key) seen then failed (duplicate_field key) else rest
  scan_members (suc n) seen [] = end_object []
  scan_members (suc n) seen (close_object ∷ ts) = end_object (close_object ∷ ts)
  scan_members (suc n) seen (close_array ∷ ts) = end_object (close_array ∷ ts)
  scan_members (suc n) seen (broken ∷ ts) = failed token_error
  scan_members (suc n) seen (scalar ∷ ts) = failed key_not_string
  scan_members (suc n) seen (open_object ∷ ts) = failed key_not_string
  scan_members (suc n) seen (open_array ∷ ts) = failed key_not_string

  pub scan_items : ℕ → List Token → Scan
  scan_items zero ts = out_of_fuel
  scan_items (suc n) ts =
      let rest = and_then (scan_value n ts) (scan_items n) in if more ts then rest else end_array ts

-- `rejectDuplicateFields`, with fuel that `Scan` shows to be enough. The tokens behind the value
-- are left for the typed decoding.
unfoldable pub reject_duplicate_fields : List Token → Scan
reject_duplicate_fields ts = scan_value (2 * length ts + 1) ts

-- What encoding/json makes of the bytes: their tokens, the value that `Decode` stores or an error,
-- and whether `Decode` finds the end of the input behind it.
pub record Decoder (D A : Type 0) : Type 0 where
  pub tokens : D → List Token
  pub decode : D → Option A
  pub at_end : D → Bool

pub data Decoded (A : Type 0) : Type 0 where
  decoded : A → Decoded A
  bad_json : JsonFault → Decoded A
  bad_value trailing unfinished : Decoded A
  invalid : Fault → Decoded A

-- `strictDecode`
unfoldable pub strict_decode : {D A : Type 0} → Decoder D A → D → Decoded A
strict_decode decoder data' = elim (reject_duplicate_fields (decoder.tokens data')) [
  | failed e ↦ bad_json e
  | out_of_fuel ↦ unfinished
  | scanned ts ↦ elim (decoder.decode data') [
    | none ↦ bad_value
    | some a ↦ if decoder.at_end data' then decoded a else trailing
  ]
]

-- `DecodeStrict` of a value with the check `validate`.
unfoldable pub decode_strict : {D A : Type 0} → Decoder D A → (A → Option Fault) → D → Decoded A
decode_strict decoder validate data' = elim (strict_decode decoder data') [
  | decoded a ↦ elim (validate a) [ none ↦ decoded a | some fault ↦ invalid fault ]
  | bad_json e ↦ bad_json e
  | bad_value ↦ bad_value
  | trailing ↦ trailing
  | unfinished ↦ unfinished
  | invalid fault ↦ invalid fault
]
