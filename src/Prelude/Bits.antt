-- ===== src/Prelude/Bits.antt =====
-- Six-bit masks. The laws over a mask are tables: every value is checked by evaluation.
use Prim.Native.Nat.{ℕ, zero, suc, ◌^◌, ◌<◌, bit_and, bit_or}
use mathlib.Core.Path.{◌≡◌, refl}
use mathlib.Core.Bool.{◌||◌, Bool, true, false, not, ◌&&◌}
use native.Mathlib.Omega.{arith}
use worms_ng.Prelude.{&&-true, ==_iff, if◌then◌else◌, ltb, ltb→lt, ◌==◌, Bool-cases, inl, inr}

-- `m & (1 << d) != 0`
unfoldable pub has_bit : ℕ → ℕ → Bool
has_bit m d = not (bit_and m (2 ^ d) == 0)

-- Whether a test holds at every number below `n`, counting down.
unfoldable pub sweep : ℕ → (ℕ → Bool) → Bool
sweep (suc n) test = if test n then sweep n test else false
sweep zero test = true

pub swept : (n : ℕ) (test : ℕ → Bool) (x : ℕ) → x < n → sweep n test ≡ true → test x ≡ true
unfolding sweep
swept (suc n) test x below done = elim (Bool-cases (test n)) [
  | inl good ↦ ground (arith, swept n test x)
  | inr bad ↦ absurd (ground arith)
]
swept zero test x below done = absurd (omega arith)

unfoldable pub six : (ℕ → Bool) → Bool
six f = f 0 && f 1 && f 2 && f 3 && f 4 && f 5

-- A test that holds at the six directions.
pub six_intro : (f : ℕ → Bool) → ((d : ℕ) → d < 6 → f d ≡ true) → six f ≡ true
unfolding six
six_intro f h = ground (
  arith,
  h 0 (omega arith),
  h 1 (omega arith),
  h 2 (omega arith),
  h 3 (omega arith),
  h 4 (omega arith),
  h 5 (omega arith),
)

pub six_elim : (f : ℕ → Bool) (d : ℕ) → six f ≡ true → d < 6 → f d ≡ true
unfolding six
six_elim f zero h lt = ground arith
six_elim f (suc zero) h lt = ground arith
six_elim f (suc (suc zero)) h lt = ground arith
six_elim f (suc (suc (suc zero))) h lt = ground arith
six_elim f (suc (suc (suc (suc zero)))) h lt = ground arith
six_elim f (suc (suc (suc (suc (suc zero))))) h lt = ground arith
six_elim f (suc (suc (suc (suc (suc (suc d)))))) h lt = absurd (omega arith)

-- The loop `for d := East; d <= NorthEast; d++ { if f(d) { m |= 1 << d } }`, from `m = 0`.
set_if : Bool → ℕ → ℕ → ℕ
set_if b d m = if b then bit_or m (2 ^ d) else m

unfoldable pub gather : (ℕ → Bool) → ℕ
unfolding set_if
gather f =
    set_if (f 5) 5
      (set_if (f 4) 4 (set_if (f 3) 3 (set_if (f 2) 2 (set_if (f 1) 1 (set_if (f 0) 0 0)))))

abbrev flags : Bool → Bool → Bool → Bool → Bool → Bool → ℕ → Bool
flags a b c d e f zero = a
flags a b c d e f (suc zero) = b
flags a b c d e f (suc (suc zero)) = c
flags a b c d e f (suc (suc (suc zero))) = d
flags a b c d e f (suc (suc (suc (suc zero)))) = e
flags a b c d e f (suc (suc (suc (suc (suc n))))) = f

both : (Bool → Bool) → Bool
both p = p true && p false

both_sound : (p : Bool → Bool) (b : Bool) → both p ≡ true → p b ≡ true
unfolding both
both_sound p true h = ground arith
both_sound p false h = ground arith

-- What is checked of a gathered mask: its six bits, and its bound.
gather_test : (ℕ → Bool) → Bool
unfolding gather six
gather_test f = let m = gather f in six (λ d. if has_bit m d then f d else not (f d)) && ltb m 64

gather_table :
    both (λ a.
      both (λ b. both (λ c. both (λ d. both (λ e. both (λ f. gather_test (flags a b c d e f)))))))
    ≡ true
unfolding both gather_test has_bit
gather_table = refl

gather_test_all : (f : ℕ → Bool) → gather_test f ≡ true
unfolding gather_test
gather_test_all f = both_sound _ (f 5) (
    both_sound _ (f 4) (
      both_sound _ (f 3)
        (both_sound _ (f 2) (both_sound _ (f 1) (both_sound _ (f 0) gather_table)))))

if_same : (x y : Bool) → (if x then y else not y) ≡ true → x ≡ y
if_same x y h = ground arith

pub has_bit-gather : (f : ℕ → Bool) (d : ℕ) → d < 6 → has_bit (gather f) d ≡ f d
unfolding gather_test
has_bit-gather f d h =
    let test = λ (d : ℕ). if has_bit (gather f) d then f d else not (f d) in
    if_same _ _ (six_elim test d (&&-true (six test) (ltb (gather f) 64) (gather_test_all f)).0 h)

pub gather_lt : (f : ℕ → Bool) → gather f < 64
unfolding gather_test
gather_lt f =
    let test = λ (d : ℕ). if has_bit (gather f) d then f d else not (f d) in
    ltb→lt _ _ (&&-true (six test) (ltb (gather f) 64) (gather_test_all f)).1

-- `a | b` is `a` when `b` has no bit of its own.
absorb_test : ℕ → ℕ → Bool
unfolding six has_bit
absorb_test a b = not (six (λ d. not (has_bit b d) || has_bit a d)) || bit_or a b == a

absorb_table : sweep 64 (λ a. sweep 64 (absorb_test a)) ≡ true
unfolding sweep absorb_test
absorb_table = refl

implies_test : (x y : Bool) → (x ≡ true → y ≡ true) → not x || y ≡ true
implies_test true y h = h refl
implies_test false y h = refl

pub bit_or_absorb :
    (a b : ℕ)
    → a < 64
    → b < 64
    → ((d : ℕ) → d < 6 → has_bit b d ≡ true → has_bit a d ≡ true)
    → bit_or a b ≡ a
unfolding absorb_test
bit_or_absorb a b ha hb sub =
    let row = swept 64 (λ a. sweep 64 (absorb_test a)) a ha absorb_table in
    let cell = swept 64 (absorb_test a) b hb row in
    let covered =
      six_intro (λ d. not (has_bit b d) || has_bit a d) (λ d h. implies_test _ _ (sub d h)) in
    (==_iff _ _).0 (ground (arith, cell, covered))

-- `m & 63` keeps a six-bit mask.
and_table : sweep 64 (λ m. bit_and m 63 == m) ≡ true
unfolding sweep
and_table = refl

pub bit_and_sixty_three : (m : ℕ) → m < 64 → bit_and m 63 ≡ m
bit_and_sixty_three m h = (==_iff _ _).0 (swept 64 (λ m. bit_and m 63 == m) m h and_table)

-- A full mask has every bit, and a mask with every bit is full.
full_table : sweep 64 (λ m. not (six (has_bit m)) || m == 63) ≡ true
unfolding sweep six has_bit
full_table = refl

pub full_of_bits : (m : ℕ) → m < 64 → ((d : ℕ) → d < 6 → has_bit m d ≡ true) → m ≡ 63
full_of_bits m h bits = (==_iff _ _).0 (
    ground (
      arith,
      swept 64 (λ m. not (six (has_bit m)) || m == 63) m h full_table,
      six_intro (has_bit m) bits,
    ))

has_bit-full_table : six (has_bit 63) ≡ true
unfolding six has_bit
has_bit-full_table = refl

pub has_bit-full : (d : ℕ) → d < 6 → has_bit 63 d ≡ true
has_bit-full d h = six_elim (has_bit 63) d has_bit-full_table h

swap_table : sweep 64 (λ a. sweep 64 (λ b. bit_or a b == bit_or b a)) ≡ true
unfolding sweep
swap_table = refl

pub bit_or_comm : (a b : ℕ) → a < 64 → b < 64 → bit_or a b ≡ bit_or b a
bit_or_comm a b ha hb =
    let row = swept 64 (λ a. sweep 64 (λ b. bit_or a b == bit_or b a)) a ha swap_table in
    (==_iff _ _).0 (swept 64 (λ b. bit_or a b == bit_or b a) b hb row)

-- A bit of a mask stays in its union with any byte.
keep_test : ℕ → ℕ → Bool
unfolding six has_bit
keep_test a b = six (λ d. not (has_bit a d) || has_bit (bit_or a b) d)

keep_table : sweep 64 (λ a. sweep 256 (keep_test a)) ≡ true
unfolding sweep keep_test
keep_table = refl

implies_elim : (x y : Bool) → not x || y ≡ true → x ≡ true → y ≡ true
implies_elim x y h k = ground arith

pub has_bit-bit_or :
    (a b d : ℕ) → a < 64 → b < 256 → d < 6 → has_bit a d ≡ true → has_bit (bit_or a b) d ≡ true
unfolding keep_test
has_bit-bit_or a b d ha hb hd =
    let row = swept 64 (λ a. sweep 256 (keep_test a)) a ha keep_table in
    let cell = swept 256 (keep_test a) b hb row in
    implies_elim _ _ (six_elim (λ d. not (has_bit a d) || has_bit (bit_or a b) d) d cell hd)

zero_table : six (λ d. not (has_bit 0 d)) ≡ true
unfolding six has_bit
zero_table = refl

pub has_bit-zero : (d : ℕ) → d < 6 → has_bit 0 d ≡ false
has_bit-zero d h = ground (arith, six_elim (λ d. not (has_bit 0 d)) d zero_table h)
