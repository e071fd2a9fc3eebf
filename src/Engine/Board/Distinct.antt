-- ===== src/Engine/Board/Distinct.antt =====
-- A neighbour is another point.
use worms_ng.Prelude.{
  Bool-cases, ap, arith, false, inl, inr, int_laws, neg_part, negsuc, pos, pos_part, sym, ℤ, ◌+ℤ◌,
  ◌<ℤ◌, ◌<◌, ◌∙◌, ◌≡◌, ◌≢◌, ◌≤ℤ◌, ◌⊎◌,
}
use worms_ng.Engine.Board.{axial_dq, axial_dr, classic_dq, classic_dr, neighbor, start, wrap_coord}
use worms_ng.Engine.Board.Torus.{
  Inside, IsSound, dq, dq_bounds, dr, dr_bounds, near_cases, neighbor_plane, neighbor_torus,
}
use worms_ng.Engine.Board.Wrap.{wrap_coord_above, wrap_coord_below, wrap_coord_inside}
use worms_ng.Engine.Types.{Board, Direction, Point, is_toroidal}

-- A shift by one is not undone by the wrap, given two places.
wrap_moves :
    (start size x δ : ℤ)
    → pos 1 <ℤ size
    → start ≤ℤ x
    → x <ℤ start +ℤ size
    → negsuc 0 ≤ℤ δ
    → δ ≤ℤ pos 1
    → δ ≢ pos 0
    → wrap_coord start size (x +ℤ δ) ≢ x
wrap_moves start size x δ h l u a b ne e =
    elim (near_cases start size (x +ℤ δ) (omega int_laws) (omega int_laws)) [
      | inl inside ↦
          let same = sym (wrap_coord_inside start size (x +ℤ δ) inside.0 inside.1) ∙ e in
          ne (omega (int_laws, ap pos_part same, ap neg_part same))
      | inr (inl below) ↦
          let same = sym (wrap_coord_below start size (x +ℤ δ) h below) ∙ e in
          absurd (
            omega
              (int_laws, ap pos_part same, ap neg_part same, ap pos_part below, ap neg_part below))
      | inr (inr above) ↦
          let same = sym (wrap_coord_above start size (x +ℤ δ) (omega arith) above) ∙ e in
          absurd (
            omega
              (int_laws, ap pos_part same, ap neg_part same, ap pos_part above, ap neg_part above))
    ]

plane_moves : (x δ : ℤ) → δ ≢ pos 0 → x +ℤ δ ≢ x
plane_moves x δ ne e = ne (omega (int_laws, ap pos_part e, ap neg_part e))

offset_ne : (b : Board) (p : Point) (d : Direction) → d < 6 → (dq b p d ≢ pos 0) ⊎ (dr b d ≢ pos 0)
unfolding dq dr classic_dq axial_dq classic_dr axial_dr
offset_ne b p d h = ground arith

-- Off a torus, a direction leads away from every point.
pub neighbor-ne_plane :
    (b : Board) (p : Point) (d : Direction)
    → IsSound b
    → is_toroidal b.topology ≡ false
    → d < 6
    → neighbor b p d ≢ p
neighbor-ne_plane b p d s t h e =
    let there = sym (neighbor_plane b s p d h t) ∙ e in
    elim (offset_ne b p d h) [
      | inl ne ↦ plane_moves p.q (dq b p d) ne (ap (λ (z : Point). z.q) there)
      | inr ne ↦ plane_moves p.r (dr b d) ne (ap (λ (z : Point). z.r) there)
    ]

-- On a board at least two wide and two high, whose height is even on the classic torus, none of
-- the six directions leads from a point of the board to itself.
pub neighbor-ne :
    (b : Board) (p : Point) (d : Direction) → IsSound b → Inside b p → d < 6 → neighbor b p d ≢ p
neighbor-ne b p d s i h e = elim (Bool-cases (is_toroidal b.topology)) [
  | inl t ↦
      let there = sym (neighbor_torus b s p d h t) ∙ e in
      elim (offset_ne b p d h) [
        | inl ne ↦
            wrap_moves (start b.mode) b.width p.q (dq b p d) s.wide i.left i.right
              (dq_bounds b p d h).0 (dq_bounds b p d h).1 ne (ap (λ (z : Point). z.q) there)
        | inr ne ↦
            wrap_moves (start b.mode) b.height p.r (dr b d) s.high i.top i.bottom
              (dr_bounds b d h).0 (dr_bounds b d h).1 ne (ap (λ (z : Point). z.r) there)
      ]
  | inr t ↦ neighbor-ne_plane b p d s t h e
]
