-- ===== src/Engine/Board/Wrap.antt =====
-- Coordinates on the torus.
use worms_ng.Prelude.{
  ℕ, ◌+◌, ◌%◌, ◌<◌, ◌≡◌, arith, ap, ◌∙◌, ℤ, pos, negsuc, ◌+ℤ◌, ◌-ℤ◌, ◌≤ℤ◌, ◌<ℤ◌, rem, pos_part,
  neg_part, int_laws,
}
use worms_ng.Engine.Board.{wrap_coord}

-- The remainder lies strictly between -b and b.
rem_bounds : (a b : ℤ) → pos 0 <ℤ b → (rem a b <ℤ b) × (pos 0 -ℤ b <ℤ rem a b)
unfolding rem ◌-ℤ◌
rem_bounds (pos n) (pos m) h = grind arith
rem_bounds (negsuc n) (pos m) h = grind arith
rem_bounds a (negsuc m) h = absurd (omega arith)

rem_nonneg : (a b : ℤ) → pos 0 ≤ℤ a → pos 0 ≤ℤ rem a b
unfolding rem
rem_nonneg (pos n) b h = ground arith
rem_nonneg (negsuc n) b h = absurd (omega arith)

rem_small : (a b : ℤ) → pos 0 ≤ℤ a → a <ℤ b → rem a b ≡ a
unfolding rem
rem_small (pos n) (pos m) h k = grind arith
rem_small (pos n) (negsuc m) h k = absurd (omega arith)
rem_small (negsuc n) b h k = absurd (omega arith)

rem_pos : (n m : ℕ) → rem (pos n) (pos m) ≡ pos (n % m)
unfolding rem
rem_pos n m = let unit : m + 0 ≡ m = omega arith in rw unit (ground arith)

turn_lem : (n m : ℕ) → n < m → (n + m) % m ≡ n
turn_lem n m h = grind arith

-- One turn more leaves the remainder.
rem_turn : (u b : ℤ) → pos 0 ≤ℤ u → u <ℤ b → rem (u +ℤ b) b ≡ u
unfolding ◌+ℤ◌
rem_turn (pos n) (pos m) h k =
    let sum : pos n +ℤ pos m ≡ pos (n + m) = ground arith in
    rw sum (rem_pos (n + m) m ∙ ap pos (turn_lem n m (omega arith)))
rem_turn (pos n) (negsuc m) h k = absurd (omega arith)
rem_turn (negsuc n) b h k = absurd (omega arith)

rem_self : (b : ℤ) → pos 0 <ℤ b → rem b b ≡ pos 0
unfolding rem ◌+ℤ◌
rem_self (pos m) h = grind arith
rem_self (negsuc m) h = absurd (omega arith)

rem_neg_one : (b : ℤ) → pos 1 <ℤ b → rem (negsuc 0) b ≡ negsuc 0
unfolding rem
rem_neg_one (pos m) h = grind arith
rem_neg_one (negsuc m) h = absurd (omega arith)

-- Any coordinate, however far out, lands in the range.
pub wrap_coord_bounds :
    (start size x : ℤ)
    → pos 0 <ℤ size
    → (start ≤ℤ wrap_coord start size x) × (wrap_coord start size x <ℤ start +ℤ size)
unfolding wrap_coord
wrap_coord_bounds start size x h =
    let inner = rem_bounds (x -ℤ start) size h in
    let shifted = rem (x -ℤ start) size +ℤ size in
    let outer = rem_bounds shifted size h in
    let low = rem_nonneg shifted size (omega int_laws) in (omega int_laws, omega int_laws)

-- A coordinate in the range stays.
pub wrap_coord_inside :
    (start size x : ℤ) → start ≤ℤ x → x <ℤ start +ℤ size → wrap_coord start size x ≡ x
unfolding wrap_coord
wrap_coord_inside start size x h k =
    let u = x -ℤ start in
    let same = rem_small u size (omega int_laws) (omega int_laws) in
    let turn = rem_turn u size (omega int_laws) (omega int_laws) in
    rw same (rw turn (omega int_laws))

-- The coordinate just below the range comes in at its end.
pub wrap_coord_below :
    (start size x : ℤ)
    → pos 1 <ℤ size
    → x +ℤ pos 1 ≡ start
    → wrap_coord start size x ≡ start +ℤ (size -ℤ pos 1)
unfolding wrap_coord
wrap_coord_below start size x h e =
    let u : x -ℤ start ≡ negsuc 0 = omega (int_laws, ap pos_part e, ap neg_part e) in
    let last = rem_small (negsuc 0 +ℤ size) size (omega int_laws) (omega int_laws) in
    rw u (rw (rem_neg_one size h) (rw last (omega int_laws)))

-- The coordinate just above the range comes in at its start.
pub wrap_coord_above :
    (start size x : ℤ) → pos 0 <ℤ size → x ≡ start +ℤ size → wrap_coord start size x ≡ start
unfolding wrap_coord
wrap_coord_above start size x h e =
    let u : x -ℤ start ≡ size = omega (int_laws, ap pos_part e, ap neg_part e) in
    let turn : pos 0 +ℤ size ≡ size = omega int_laws in
    rw u (rw (rem_self size h) (rw turn (rw (rem_self size h) (omega int_laws))))
