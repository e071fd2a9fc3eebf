-- ===== src/Engine/Board/Torus.antt =====
-- A step and the step back, on each kind of board, and the bounds of a neighbour.
use worms_ng.Prelude.{
  Bool, Bool-cases, ap, arith, false, if◌then◌else◌, inl, inr, int_laws, is_odd, neg_part, negsuc,
  not, pos, pos_part, refl, sym, true, ℤ, ◌+ℤ◌, ◌-ℤ◌, ◌<ℤ◌, ◌<◌, ◌==◌, ◌||◌, ◌∙◌, ◌≡◌, ◌≤ℤ◌, ◌⊎◌,
}
use worms_ng.Engine.Board.{
  axial_dq, axial_dr, classic_dq, classic_dr, in_bounds, neighbor, start, wrap, wrap_coord,
}
use worms_ng.Engine.Board.Wrap.{
  wrap_coord_above, wrap_coord_below, wrap_coord_bounds, wrap_coord_inside,
}
use worms_ng.Engine.Types.{Board, Direction, Point, is_classic, is_toroidal, opposite}

-- What a board must satisfy for a step to have a way back: two columns and two rows at least, and
-- on the classic torus, where odd rows are shifted, an even number of rows.
pub record IsSound (b : Board) : Type 0 where
  pub wide : pos 1 <ℤ b.width
  pub high : pos 1 <ℤ b.height
  pub even_rows : is_classic b.mode ≡ true → is_toroidal b.topology ≡ true → is_odd b.height ≡ false

-- The point lies on the board, as `in_bounds` tests it.
pub record Inside (b : Board) (p : Point) : Type 0 where
  pub left : start b.mode ≤ℤ p.q
  pub right : p.q <ℤ start b.mode +ℤ b.width
  pub top : start b.mode ≤ℤ p.r
  pub bottom : p.r <ℤ start b.mode +ℤ b.height

pub Inside-of_in_bounds : (b : Board) (p : Point) → in_bounds b p ≡ true → Inside b p
unfolding in_bounds
Inside-of_in_bounds b p h = ground arith

pub in_bounds-of_Inside : (b : Board) (p : Point) → Inside b p → in_bounds b p ≡ true
unfolding in_bounds
in_bounds-of_Inside b p h = ground arith

-- The offsets of a direction.
unfoldable pub dq : Board → Point → Direction → ℤ
dq b p d = if is_classic b.mode then classic_dq (is_odd p.r) d else axial_dq d

unfoldable pub dr : Board → Direction → ℤ
dr b d = if is_classic b.mode then classic_dr d else axial_dr d

abbrev moved : Board → Point → ℤ → ℤ → Point
moved b p x y =
    let shifted : Point = record { q = p.q +ℤ x; r = p.r +ℤ y } in
    if is_toroidal b.topology then wrap b shifted else shifted

neighbor-eq-moved :
    (b : Board) (p : Point) (d : Direction) → d < 6 → neighbor b p d ≡ moved b p (dq b p d) (dr b d)
unfolding neighbor dq dr
neighbor-eq-moved b p d h = ground arith

moved_torus :
    (b : Board) (p : Point) (x y : ℤ)
    → IsSound b
    → is_toroidal b.topology ≡ true
    → moved b p x y ≡ record {
      q = wrap_coord (start b.mode) b.width (p.q +ℤ x);
      r = wrap_coord (start b.mode) b.height (p.r +ℤ y);
    }
unfolding wrap
moved_torus b p x y s t = ground arith

le_or_lt : (a b : ℤ) → (a ≤ℤ b) ⊎ (b <ℤ a)
le_or_lt a b = ground arith

back_lem : (x δ δ' : ℤ) → δ +ℤ δ' ≡ pos 0 → x +ℤ δ +ℤ δ' ≡ x
back_lem x δ δ' e = omega (int_laws, ap pos_part e, ap neg_part e)

last_lem : (start size x : ℤ) → x +ℤ pos 1 ≡ start → start +ℤ (size -ℤ pos 1) ≡ x +ℤ size
last_lem start size x e = omega (int_laws, ap pos_part e, ap neg_part e)

-- One step from the range leads into it, just below it or just above it.
pub near_cases :
    (start size x : ℤ)
    → start ≤ℤ x +ℤ pos 1
    → x ≤ℤ start +ℤ size
    → ((start ≤ℤ x) × (x <ℤ start +ℤ size)) ⊎ (x +ℤ pos 1 ≡ start) ⊎ (x ≡ start +ℤ size)
near_cases start size x l u = elim (le_or_lt start x) [
  | inl from ↦ elim (le_or_lt (start +ℤ size) x) [
    | inl beyond ↦ inr (inr (omega int_laws))
    | inr within ↦ inl (from, within)
  ]
  | inr below ↦ inr (inl (omega int_laws))
]

-- One coordinate of a step and of the step back.
wrap_back :
    (start size x δ δ' : ℤ)
    → pos 1 <ℤ size
    → start ≤ℤ x
    → x <ℤ start +ℤ size
    → negsuc 0 ≤ℤ δ
    → δ ≤ℤ pos 1
    → δ +ℤ δ' ≡ pos 0
    → wrap_coord start size (wrap_coord start size (x +ℤ δ) +ℤ δ') ≡ x
wrap_back start size x δ δ' h l u a b e =
    elim (near_cases start size (x +ℤ δ) (omega int_laws) (omega int_laws)) [
      | inl inside ↦ rw (wrap_coord_inside start size (x +ℤ δ) inside.0 inside.1) (
          let back : x +ℤ δ +ℤ δ' ≡ x = back_lem x δ δ' e in
          rw back (wrap_coord_inside start size x l u))
      | inr (inl below) ↦ rw (wrap_coord_below start size (x +ℤ δ) h below) (
          rw
            (wrap_coord_above start size (start +ℤ (size -ℤ pos 1) +ℤ δ') (omega arith) (
              omega (int_laws, ap pos_part e, ap neg_part e, ap pos_part below, ap neg_part below)))
            (omega (int_laws, ap pos_part e, ap neg_part e, ap pos_part below, ap neg_part below)))
      | inr (inr above) ↦ rw (wrap_coord_above start size (x +ℤ δ) (omega arith) above) (
          rw
            (wrap_coord_below start size (start +ℤ δ') h (
              omega (int_laws, ap pos_part e, ap neg_part e, ap pos_part above, ap neg_part above)))
            (omega (int_laws, ap pos_part e, ap neg_part e, ap pos_part above, ap neg_part above)))
    ]

is_odd_suc : (x : ℤ) → is_odd (x +ℤ pos 1) ≡ not (is_odd x)
unfolding is_odd ◌+ℤ◌
is_odd_suc x = ground arith

is_odd_add : (x y : ℤ) → is_odd y ≡ false → is_odd (x +ℤ y) ≡ is_odd x
unfolding is_odd ◌+ℤ◌
is_odd_add x y = ground arith

-- Wrapping an even number of rows keeps the parity of a row.
is_odd-wrap_coord :
    (start size x : ℤ)
    → pos 1 <ℤ size
    → is_odd size ≡ false
    → start ≤ℤ x +ℤ pos 1
    → x ≤ℤ start +ℤ size
    → is_odd (wrap_coord start size x) ≡ is_odd x
is_odd-wrap_coord start size x h e l u = elim (near_cases start size x l u) [
  | inl inside ↦ rw (wrap_coord_inside start size x inside.0 inside.1)
  | inr (inl below) ↦
      let y : start +ℤ (size -ℤ pos 1) ≡ x +ℤ size = last_lem start size x below in
      rw (wrap_coord_below start size x h below) (rw y (is_odd_add x size e))
  | inr (inr above) ↦
      rw (wrap_coord_above start size x (omega arith) above)
        (rw above (sym (is_odd_add start size e)))
]

pub dq_bounds :
    (b : Board) (p : Point) (d : Direction) → d < 6 → (negsuc 0 ≤ℤ dq b p d) × (dq b p d ≤ℤ pos 1)
unfolding dq classic_dq axial_dq
dq_bounds b p d h = ground arith

pub dr_bounds : (b : Board) (d : Direction) → d < 6 → (negsuc 0 ≤ℤ dr b d) × (dr b d ≤ℤ pos 1)
unfolding dr classic_dr axial_dr
dr_bounds b d h = ground arith

dr_back : (b : Board) (d : Direction) → d < 6 → dr b d +ℤ dr b (opposite d) ≡ pos 0
unfolding dr classic_dr axial_dr opposite ◌+ℤ◌
dr_back b d h = ground arith

-- Four of the directions change the row, and with it the shift.
changes_row : Direction → Bool
changes_row d = not (d == 0 || d == 3)

is_odd-dr :
    (b : Board) (x : ℤ) (d : Direction)
    → d < 6
    → is_odd (x +ℤ dr b d) ≡ (if changes_row d then not (is_odd x) else is_odd x)
unfolding dr classic_dr axial_dr changes_row is_odd ◌+ℤ◌
is_odd-dr b x d h = ground arith

dq_back :
    (b : Board) (p p' : Point) (d : Direction)
    → d < 6
    → is_odd p'.r ≡ (if changes_row d then not (is_odd p.r) else is_odd p.r)
    → dq b p d +ℤ dq b p' (opposite d) ≡ pos 0
unfolding dq classic_dq axial_dq opposite changes_row ◌+ℤ◌
dq_back b p p' d h e = ground arith

opposite_lt : (d : Direction) → d < 6 → opposite d < 6
unfolding opposite
opposite_lt d h = ground arith

dq_back_modern :
    (b : Board) (p p' : Point) (d : Direction)
    → d < 6
    → is_classic b.mode ≡ false
    → dq b p d +ℤ dq b p' (opposite d) ≡ pos 0
unfolding dq axial_dq opposite ◌+ℤ◌
dq_back_modern b p p' d h e = ground arith

point-ext : (p : Point) (x y : ℤ) → p.q ≡ x → p.r ≡ y → p ≡ record { q = x; r = y }
point-ext p x y e f = ground arith

module _ (b : Board) (s : IsSound b) (p : Point) (d : Direction) (h : d < 6) where
  pub neighbor_plane :
      is_toroidal b.topology ≡ false
      → neighbor b p d ≡ record { q = p.q +ℤ dq b p d; r = p.r +ℤ dr b d }
  neighbor_plane t = neighbor-eq-moved b p d h ∙ rw t refl

  pub neighbor_torus :
      is_toroidal b.topology ≡ true
      → neighbor b p d ≡ record {
        q = wrap_coord (start b.mode) b.width (p.q +ℤ dq b p d);
        r = wrap_coord (start b.mode) b.height (p.r +ℤ dr b d);
      }
  neighbor_torus t = neighbor-eq-moved b p d h ∙ moved_torus b p _ _ s t

  -- On the torus every neighbour lies on the board.
  pub neighbor-Inside : is_toroidal b.topology ≡ true → Inside b (neighbor b p d)
  neighbor-Inside t =
      let wide =
        wrap_coord_bounds (start b.mode) b.width (p.q +ℤ dq b p d) (omega (arith, s.wide)) in
      let high =
        wrap_coord_bounds (start b.mode) b.height (p.r +ℤ dr b d) (omega (arith, s.high)) in
      rw (neighbor_torus t)
        (record { left = wide.0; right = wide.1; top = high.0; bottom = high.1 })

  row_parity :
      Inside b p
      → is_classic b.mode ≡ true
      → is_odd (neighbor b p d).r ≡ (if changes_row d then not (is_odd p.r) else is_odd p.r)
  row_parity i c = elim (Bool-cases (is_toroidal b.topology)) [
    | inl t ↦ rw (neighbor_torus t) (
        is_odd-wrap_coord (start b.mode) b.height (p.r +ℤ dr b d) s.high (s.even_rows c t)
          (omega (int_laws, dr_bounds b d h, i.top)) (omega (int_laws, dr_bounds b d h, i.bottom))
        ∙ is_odd-dr b p.r d h)
    | inr t ↦ rw (neighbor_plane t) (is_odd-dr b p.r d h)
  ]

  dq_return : Inside b p → dq b p d +ℤ dq b (neighbor b p d) (opposite d) ≡ pos 0
  dq_return i = elim (Bool-cases (is_classic b.mode)) [
    | inl c ↦ dq_back b p (neighbor b p d) d h (row_parity i c)
    | inr m ↦ dq_back_modern b p (neighbor b p d) d h m
  ]

-- On a board at least two wide and two high, whose height is even on the classic torus, the
-- opposite direction leads back from the neighbour of a point of the board.
pub neighbor-opposite :
    (b : Board) (p : Point) (d : Direction)
    → IsSound b
    → Inside b p
    → d < 6
    → neighbor b (neighbor b p d) (opposite d) ≡ p
neighbor-opposite b p d s i h =
    let back = opposite_lt d h in
    let p' = neighbor b p d in
    elim (Bool-cases (is_toroidal b.topology)) [
      | inl t ↦
          let there = neighbor_torus b s p d h t in
          neighbor_torus b s p' (opposite d) back t
          ∙ sym (
              point-ext p _ _
                (sym (
                  ap (λ (x : ℤ). wrap_coord (start b.mode) b.width (x +ℤ dq b p' (opposite d)))
                    (ap (λ (z : Point). z.q) there)
                  ∙ wrap_back (start b.mode) b.width p.q (dq b p d) (dq b p' (opposite d)) s.wide
                      i.left i.right (dq_bounds b p d h).0 (dq_bounds b p d h).1
                      (dq_return b s p d h i)))
                (sym (
                  ap (λ (x : ℤ). wrap_coord (start b.mode) b.height (x +ℤ dr b (opposite d)))
                    (ap (λ (z : Point). z.r) there)
                  ∙ wrap_back (start b.mode) b.height p.r (dr b d) (dr b (opposite d)) s.high i.top
                      i.bottom (dr_bounds b d h).0 (dr_bounds b d h).1 (dr_back b d h))))
      | inr t ↦
          let there = neighbor_plane b s p d h t in
          neighbor_plane b s p' (opposite d) back t
          ∙ sym (
              point-ext p _ _
                (sym (
                  ap (λ (x : ℤ). x +ℤ dq b p' (opposite d)) (ap (λ (z : Point). z.q) there)
                  ∙ back_lem p.q (dq b p d) (dq b p' (opposite d)) (dq_return b s p d h i)))
                (sym (
                  ap (λ (x : ℤ). x +ℤ dr b (opposite d)) (ap (λ (z : Point). z.r) there)
                  ∙ back_lem p.r (dr b d) (dr b (opposite d)) (dr_back b d h))))
    ]
