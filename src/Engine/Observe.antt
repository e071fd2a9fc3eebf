-- ===== src/Engine/Observe.antt =====
-- What engine.go tells a controller and a spectator of a state: Observe, the historical encodings,
-- the winners.
pub mod Laws
pub mod Packing
use worms_ng.Prelude.{
  Bool, List, Option, String, [], bit_and, bit_or, eq_ℤ, false, if◌then◌else◌, length, ltb, ltb_ℤ,
  map, negsuc, none, pos, some, suc, true, zero, ℕ, ℤ, ◌%◌, ◌*◌, ◌+◌, ◌/◌, ◌==◌, ◌^◌, ◌∷◌,
}
use worms_ng.Engine.Board.{neighbor, neighbors}
use worms_ng.Engine.Masks.{find_worm, has_worm, mask_at, occupied, raw_mask, territory_at}
use worms_ng.Engine.Moves.{legal_moves}
use worms_ng.Engine.Types.{Direction, Point, State, Worm, board, no_move}
use worms_ng.Prelude.Bits.{gather}

pub record Observation : Type 0 where
  pub version : ℤ
  pub worm_id : String
  pub position : Point
  pub raw_mask : ℕ
  pub mask : ℕ
  pub occupied_mask : ℕ
  pub incoming : Direction
  pub legal : List Direction
  pub scores : List ℤ
  pub local_territory_counts : List ℕ
  pub pending : Bool

-- `bitCount` of a byte: the loop has at most eight rounds.
unfoldable pub count_bits : ℕ → ℕ → ℕ
count_bits zero m = 0
count_bits (suc left) m = let rest = count_bits left (m / 2) in if m == 0 then 0 else m % 2 + rest

unfoldable pub bit_count : ℕ → ℕ
unfolding count_bits
bit_count m = count_bits 8 m

-- `State.Observe`; `none` is the error for an unknown worm.
unfoldable pub observe : State → String → Option Observation
observe s name = elim (find_worm s.worms name) [
  | none ↦ none
  | some w ↦
      let raw = bit_and (mask_at s w.position) 63 in
      let beside = neighbors (board s) w.position in
      some (record {
        version = pos 1;
        worm_id = name;
        position = w.position;
        raw_mask = raw;
        mask = raw;
        occupied_mask = gather (λ d. has_worm s.worms (neighbor (board s) w.position d));
        incoming = w.crix;
        legal = legal_moves s name;
        scores = map (λ v. v.score) s.worms;
        local_territory_counts = map (λ p. bit_count (territory_at s p).mask) beside;
        pending = elim s.pending [ none ↦ false | some p ↦ true ];
      })
]

-- `EncodeHistoricalRawMask`, and `DecodeHistoricalRawMask` with `none` for its error.
unfoldable pub encode_raw_mask : ℕ → ℕ
encode_raw_mask mask = bit_and mask 63

unfoldable pub decode_raw_mask : ℕ → Option ℕ
decode_raw_mask v = if ltb 63 v then none else some v

-- `EncodeLocalObservation`: six bits, six bits and three bits.
unfoldable pub encode_local_observation : ℕ → ℕ → Direction → ℕ
encode_local_observation mask occupied incoming =
    let seen = if ltb no_move incoming then no_move else incoming in
    bit_or (bit_or (bit_and mask 63) (bit_and occupied 63 * 2 ^ 6)) (bit_and seen 7 * 2 ^ 12)

-- The loop for the best score in `Winners`, from -1.
unfoldable pub best_score : ℤ → List Worm → ℤ
best_score best [] = best
best_score best (w ∷ ws) = best_score (if ltb_ℤ best w.score then w.score else best) ws

unfoldable pub names_with : ℤ → List Worm → List String
names_with best [] = []
names_with best (w ∷ ws) =
    let rest = names_with best ws in if eq_ℤ w.score best then w.id ∷ rest else rest

-- `State.Winners`
unfoldable pub winners : State → List String
winners s = names_with (best_score (negsuc 0) s.worms) s.worms

-- `State.Tied`
unfoldable pub tied : State → Bool
tied s = ltb 1 (length (winners s))
