-- ===== src/Engine/Masks/Laws.antt =====
-- The bits of a mask are the trails at the spokes.
use worms_ng.Prelude.{
  String, arith, bit_or, contains, false, if◌then◌else◌, insert, lookup-insert, refl, sym, true, ℕ,
  ◌<◌, ◌∙◌, ◌≡◌,
}
use worms_ng.Engine.Board.{neighbor}
use worms_ng.Engine.Masks.{has_trail, mask_of, stored_territory, trail_mask}
use worms_ng.Engine.Types.{
  Board, Direction, Edge, Point, Territories, Trails, edge_eq, edge_eq_iff, edge_key, new_edge,
  point_key,
}
use worms_ng.Prelude.Bits.{
  bit_or_absorb, full_of_bits, gather_lt, has_bit, has_bit-bit_or, has_bit-full, has_bit-gather,
  has_bit-zero,
}

pub has_bit-trail_mask :
    (b : Board) (trails : Trails) (p : Point) (d : Direction)
    → d < 6
    → has_bit (trail_mask b trails p) d ≡ has_trail trails p (neighbor b p d)
unfolding trail_mask
has_bit-trail_mask b trails p d h = has_bit-gather (λ d. has_trail trails p (neighbor b p d)) d h

pub trail_mask_lt : (b : Board) (trails : Trails) (p : Point) → trail_mask b trails p < 64
unfolding trail_mask
trail_mask_lt b trails p = gather_lt (λ d. has_trail trails p (neighbor b p d))

pub contains-insert :
    (trails : Trails) (e f : Edge) (name : String)
    → contains f (insert e name trails) ≡ (if edge_eq e f then true else contains f trails)
contains-insert trails e f name = ground (arith, lookup-insert f e name trails)

-- A claimed trail is there, and no trail is lost.
pub has_trail-insert_self :
    (trails : Trails) (a b : Point) (name : String)
    → has_trail (insert (new_edge a b) name trails) a b ≡ true
unfolding has_trail
has_trail-insert_self trails a b name =
    let e = new_edge a b in contains-insert trails e e name ∙ rw ((edge_eq_iff e e).1 refl) refl

pub has_trail-insert :
    (trails : Trails) (e : Edge) (a b : Point) (name : String)
    → has_trail trails a b ≡ true
    → has_trail (insert e name trails) a b ≡ true
unfolding has_trail
has_trail-insert trails e a b name h = ground (arith, contains-insert trails e (new_edge a b) name)

-- A stored mask that shows only trails, as a territory keeps it.
abbrev pub Shows : Board → Trails → Point → ℕ → Type 0
Shows b trails p m =
    (m < 64)
    × ((d : Direction) → d < 6 → has_bit m d ≡ true → has_trail trails p (neighbor b p d) ≡ true)

absurd_bit : {A : Type 0} → false ≡ true → A
absurd_bit e = cc

pub Shows-zero : (b : Board) (trails : Trails) (p : Point) → Shows b trails p 0
Shows-zero b trails p = (omega arith, λ d h e. absurd_bit (sym (has_bit-zero d h) ∙ e))

pub Shows-trail_mask :
    (b : Board) (trails : Trails) (p : Point) → Shows b trails p (trail_mask b trails p)
Shows-trail_mask b trails p =
    (trail_mask_lt b trails p, λ d h e. sym (has_bit-trail_mask b trails p d h) ∙ e)

pub Shows-insert :
    (b : Board) (trails : Trails) (p : Point) (m : ℕ) (e : Edge) (name : String)
    → Shows b trails p m
    → Shows b (insert e name trails) p m
Shows-insert b trails p m e name (lt, sub) =
    (lt, λ d h bit. has_trail-insert trails e p (neighbor b p d) name (sub d h bit))

-- Such a mask adds nothing to the trails.
pub trail_mask_absorbs :
    (b : Board) (trails : Trails) (p : Point) (m : ℕ)
    → Shows b trails p m
    → bit_or (trail_mask b trails p) m ≡ trail_mask b trails p
trail_mask_absorbs b trails p m (lt, sub) =
    bit_or_absorb (trail_mask b trails p) m (trail_mask_lt b trails p) lt
      (λ d h bit. has_bit-trail_mask b trails p d h ∙ sub d h bit)

-- A full one leaves no spoke free.
pub trail_mask_full :
    (b : Board) (trails : Trails) (p : Point) → Shows b trails p 63 → trail_mask b trails p ≡ 63
trail_mask_full b trails p (lt, sub) =
    full_of_bits (trail_mask b trails p) (trail_mask_lt b trails p)
      (λ d h. has_bit-trail_mask b trails p d h ∙ sub d h (has_bit-full d h))

-- `mask` has the bit of every trail, whatever byte is stored.
pub has_bit-mask_of :
    (b : Board) (trails : Trails) (territories : Territories) (p : Point) (d : Direction)
    → (stored_territory territories p).mask < 256
    → d < 6
    → has_trail trails p (neighbor b p d) ≡ true
    → has_bit (mask_of b trails territories p) d ≡ true
unfolding mask_of
has_bit-mask_of b trails territories p d fits h t = ground (
  arith,
  has_bit-trail_mask b trails p d h,
  has_bit-bit_or (trail_mask b trails p) (stored_territory territories p).mask d
      (trail_mask_lt b trails p) fits h,
)

-- A stored mask that shows only trails leaves the mask of the trails.
pub mask_of-eq_trail_mask :
    (b : Board) (trails : Trails) (territories : Territories) (p : Point)
    → Shows b trails p (stored_territory territories p).mask
    → mask_of b trails territories p ≡ trail_mask b trails p
unfolding mask_of
mask_of-eq_trail_mask b trails territories p shows =
    ground (arith, trail_mask_absorbs b trails p (stored_territory territories p).mask shows)
