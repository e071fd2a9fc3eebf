-- ===== src/Protocol/Scan.antt =====
-- The pass over the tokens in protocol.go: its fuel, and what it accepts of the tokens of a value.
use worms_ng.Prelude.{
  List, String, [], any, arith, if_elim, length, str_eq, suc, zero, ℕ, ◌*◌, ◌+◌, ◌<◌, ◌∷◌, ◌≤◌,
}
use worms_ng.Protocol.Json.{
  Scan, Token, and_then, broken, close_array, close_object, end_array, end_object, failed, more,
  open_array, open_object, out_of_fuel, reject_duplicate_fields, scalar, scan_items, scan_members,
  scan_value, scanned, text,
}

-- The pass has ended, with fewer than `n` tokens left unless it failed.
pub Returns : ℕ → Scan → Type 0
Returns n (scanned ts) = length ts < n
Returns n (failed e) = Unit
Returns n out_of_fuel = ⊥

Returns-weaken : (m n : ℕ) (s : Scan) → m ≤ n → Returns m s → Returns n s
unfolding Returns
Returns-weaken m n (scanned ts) le h = omega (arith, h)
Returns-weaken m n (failed e) le h = tt
Returns-weaken m n out_of_fuel le h = h

Returns-and_then :
    (m n : ℕ) (s : Scan) (f : List Token → Scan)
    → Returns m s
    → ((ts : List Token) → length ts < m → Returns n (f ts))
    → Returns n (and_then s f)
unfolding Returns
Returns-and_then m n (scanned ts) f h k = k ts h
Returns-and_then m n (failed e) f h k = tt
Returns-and_then m n out_of_fuel f h k = elim h [ ]

Returns-end_array : (ts : List Token) → Returns (length ts) (end_array ts)
unfolding Returns end_array
Returns-end_array [] = tt
Returns-end_array (close_array ∷ ts) = omega arith
Returns-end_array (broken ∷ ts) = tt
Returns-end_array (open_object ∷ ts) = tt
Returns-end_array (close_object ∷ ts) = tt
Returns-end_array (open_array ∷ ts) = tt
Returns-end_array (scalar ∷ ts) = tt
Returns-end_array (text s ∷ ts) = tt

-- Fuel of twice the tokens and one is enough.
mutual
  unfolding scan_value scan_members scan_items Returns end_object

  -- On any tokens, whether a JSON value or not, the scan ends with fuel of more than twice their
  -- number: it returns an error, or stops with fewer tokens than it was given.
  pub scan_value-Returns :
      (n : ℕ) (ts : List Token) → 2 * length ts < n → Returns (length ts) (scan_value n ts)
  scan_value-Returns zero ts h = absurd (omega (arith, h))
  scan_value-Returns (suc n) [] h = tt
  scan_value-Returns (suc n) (open_object ∷ ts) h =
      Returns-weaken _ _ _ (omega arith) (scan_members-Returns n [] ts (omega (arith, h)))
  scan_value-Returns (suc n) (open_array ∷ ts) h =
      Returns-weaken _ _ _ (omega arith) (scan_items-Returns n ts (omega (arith, h)))
  scan_value-Returns (suc n) (close_object ∷ ts) h = tt
  scan_value-Returns (suc n) (close_array ∷ ts) h = tt
  scan_value-Returns (suc n) (scalar ∷ ts) h = omega arith
  scan_value-Returns (suc n) (text s ∷ ts) h = omega arith
  scan_value-Returns (suc n) (broken ∷ ts) h = tt

  scan_members-Returns :
      (n : ℕ) (seen : List String) (ts : List Token)
      → 2 * length ts + 1 < n
      → Returns (length ts) (scan_members n seen ts)
  scan_members-Returns zero seen ts h = absurd (omega (arith, h))
  scan_members-Returns (suc n) seen (text key ∷ ts) h =
      if_elim (Returns (suc (length ts))) (any (str_eq key) seen) (λ e. tt)
        (λ e.
          Returns-and_then (length ts) _ (scan_value n ts) (scan_members n (key ∷ seen))
            (scan_value-Returns n ts (omega (arith, h)))
            (λ rest lt.
              Returns-weaken _ _ _ (omega arith)
                (scan_members-Returns n (key ∷ seen) rest (omega (arith, h)))))
  scan_members-Returns (suc n) seen [] h = tt
  scan_members-Returns (suc n) seen (close_object ∷ ts) h = omega arith
  scan_members-Returns (suc n) seen (close_array ∷ ts) h = tt
  scan_members-Returns (suc n) seen (broken ∷ ts) h = tt
  scan_members-Returns (suc n) seen (scalar ∷ ts) h = tt
  scan_members-Returns (suc n) seen (open_object ∷ ts) h = tt
  scan_members-Returns (suc n) seen (open_array ∷ ts) h = tt

  scan_items-Returns :
      (n : ℕ) (ts : List Token) → 2 * length ts + 1 < n → Returns (length ts) (scan_items n ts)
  scan_items-Returns zero ts h = absurd (omega (arith, h))
  scan_items-Returns (suc n) ts h =
      if_elim (Returns (length ts)) (more ts)
        (λ e.
          Returns-and_then (length ts) _ (scan_value n ts) (scan_items n)
            (scan_value-Returns n ts (omega (arith, h)))
            (λ rest lt.
              Returns-weaken _ _ _ (omega arith) (scan_items-Returns n rest (omega (arith, h)))))
        (λ e. Returns-end_array ts)

-- On any tokens, whether a JSON value or not, the duplicate check ends within its fuel of twice
-- their number and one: it returns an error, or stops with fewer tokens than it was given.
pub reject_duplicate_fields-Returns :
    (ts : List Token) → Returns (length ts) (reject_duplicate_fields ts)
unfolding reject_duplicate_fields
reject_duplicate_fields-Returns ts = scan_value-Returns (2 * length ts + 1) ts (omega arith)
