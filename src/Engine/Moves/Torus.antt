-- ===== src/Engine/Moves/Torus.antt =====
-- Masks and moves of a well-formed state; on the classic torus the mask alone decides.
use worms_ng.Prelude.{
  List, Option-cases, String, [], ap, arith, false, get_elem?, inl, inr, none, refl, some,
  str_eq_iff, subst, suc, sym, true, zero, ℕ, ◌<◌, ◌∙◌, ◌∷◌, ◌≡◌, ◌≢◌,
}
use worms_ng.Engine.Board.{neighbor}
use worms_ng.Engine.Board.Torus.{in_bounds-of_Inside, neighbor-Inside}
use worms_ng.Engine.Masks.{find_worm, has_trail, mask_at, trail_mask, worm_index}
use worms_ng.Engine.Masks.Laws.{has_bit-trail_mask, mask_of-eq_trail_mask, trail_mask_lt}
use worms_ng.Engine.Moves.{step}
use worms_ng.Engine.Moves.Legal.{worm_index_lem}
use worms_ng.Engine.Moves.Recolor.{stored_TerritoryOk}
use worms_ng.Engine.Moves.StepLaws.{step-of_Passes}
use worms_ng.Engine.Moves.WellFormed.{WellFormed, WormsOk}
use worms_ng.Engine.Types.{
  Board, Direction, Event, Point, State, Worm, board, is_classic, is_toroidal, ok,
}
use worms_ng.Prelude.Bits.{has_bit}

mask_at-eq : (s : State) (p : Point) → WellFormed s → mask_at s p ≡ trail_mask (board s) s.trails p
mask_at-eq s p h =
    mask_of-eq_trail_mask (board s) s.trails s.territories p
      (stored_TerritoryOk (board s) s.trails s.territories p h.territories_ok).shows

-- In a state that keeps the invariant, a bit of the mask of a point is set exactly when the trail
-- to that neighbour is claimed: the stored territories add nothing.
pub has_bit-mask_at :
    (s : State) (p : Point) (d : Direction)
    → WellFormed s
    → d < 6
    → has_bit (mask_at s p) d ≡ has_trail s.trails p (neighbor (board s) p d)
has_bit-mask_at s p d h lt =
    ap (λ (m : ℕ). has_bit m d) (mask_at-eq s p h) ∙ has_bit-trail_mask (board s) s.trails p d lt

pub mask_at_lt : (s : State) (p : Point) → WellFormed s → mask_at s p < 64
mask_at_lt s p h =
    subst (λ (m : ℕ). m < 64) (sym (mask_at-eq s p h)) (trail_mask_lt (board s) s.trails p)

worm_index_found :
    (ws : List Worm) (name : String) (i : ℕ) {w : Worm}
    → get_elem? ws i ≡ some w
    → w.id ≡ name
    → worm_index ws name ≢ none
unfolding worm_index
worm_index_found [] name i g e = cc
worm_index_found (v ∷ ws) name zero g e = ground (arith, str_eq_iff v.id name)
worm_index_found (v ∷ ws) name (suc i) g e = ground (arith, worm_index_found ws name i g e)

-- A name finds the worm that bears it.
pub find_worm-of_slot :
    (b : Board) (ws : List Worm) (i : ℕ) {w : Worm}
    → WormsOk b ws
    → get_elem? ws i ≡ some w
    → find_worm ws w.id ≡ some w
unfolding find_worm
find_worm-of_slot b ws i {w} h here = elim (Option-cases (worm_index ws w.id)) [
  | inl absent ↦ absurd (worm_index_found ws w.id i here refl absent)
  | inr (j, found) ↦
      let (v, there, named) = worm_index_lem ws w.id found in
      let same = h.distinct j i there here named in
      rw (found, find_worm) (ap (get_elem? ws) same ∙ here)
]

-- On the classic torus, in a state that keeps the invariant and whose game is not over, a live
-- worm can leave by every spoke that its mask shows as free.
pub torus_step :
    (s : State) (i : ℕ) (d : Direction) {w : Worm}
    → WellFormed s
    → s.game_over ≡ false
    → is_classic s.mode ≡ true
    → is_toroidal s.topology ≡ true
    → get_elem? s.worms i ≡ some w
    → w.alive ≡ true
    → d < 6
    → has_bit (mask_at s w.position) d ≡ false
    → (e : Event) × ((step s w.id d).1 ≡ ok e)
torus_step s i d {w} h running classic torus here live lt free =
    let to = neighbor-Inside (board s) h.sound w.position d lt torus in
    let inside = in_bounds-of_Inside (board s) (neighbor (board s) w.position d) to in
    let no_trail = sym (has_bit-mask_at s w.position d h lt) ∙ free in
    step-of_Passes s w.id d running (find_worm-of_slot (board s) s.worms i h.worms_ok here)
      (record {
        live = live;
        valid = lt;
        free = free;
        within = inside;
        vacant = rw classic refl;
        unclaimed = unfold has_trail in no_trail;
      })
