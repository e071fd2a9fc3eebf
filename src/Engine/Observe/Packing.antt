-- ===== src/Engine/Observe/Packing.antt =====
-- The packed observation can be read back.
use worms_ng.Prelude.{&&-true, ==_iff, Bool, refl, true, ℕ, ◌%◌, ◌&&◌, ◌/◌, ◌<◌, ◌==◌, ◌≡◌}
use worms_ng.Engine.Observe.{encode_local_observation}
use worms_ng.Engine.Types.{Direction}
use worms_ng.Prelude.Bits.{sweep, swept}

-- The three fields of a packed observation.
abbrev unpack : ℕ → ℕ × ℕ × ℕ
unpack e = (e % 64, e / 64 % 64, e / 4096)

packs : Direction → ℕ → ℕ → Bool
unfolding encode_local_observation
packs incoming mask beside =
    let (m, o, d) = unpack (encode_local_observation mask beside incoming) in
    m == mask && o == beside && d == incoming

packs_table : sweep 7 (λ d. sweep 64 (λ m. sweep 64 (packs d m))) ≡ true
unfolding sweep packs
packs_table = refl

-- EncodeLocalObservation packs two masks of six bits and a direction, or none, without loss: each
-- field can be read back.
pub encode_local_observation-unpack :
    (mask beside : ℕ) (incoming : Direction)
    → mask < 64
    → beside < 64
    → incoming < 7
    → let e = encode_local_observation mask beside incoming in
      (e % 64 ≡ mask) × (e / 64 % 64 ≡ beside) × (e / 4096 ≡ incoming)
unfolding packs
encode_local_observation-unpack mask beside incoming hm ho hi =
    let plane = swept 7 (λ d. sweep 64 (λ m. sweep 64 (packs d m))) incoming hi packs_table in
    let row = swept 64 (λ m. sweep 64 (packs incoming m)) mask hm plane in
    let cell = swept 64 (packs incoming mask) beside ho row in
    let e = encode_local_observation mask beside incoming in
    let (pair, third) =
      &&-true (e % 64 == mask && e / 64 % 64 == beside) (e / 4096 == incoming) cell in
    let (first, second) = &&-true (e % 64 == mask) (e / 64 % 64 == beside) pair in
    ((==_iff _ _).0 first, (==_iff _ _).0 second, (==_iff _ _).0 third)
