-- ===== src/Engine/Masks.antt =====
-- Occupancy of a point, from engine.go and geometry.go: trails at its six spokes, the stored
-- territory mask, and the worms that stand on it.
pub mod Laws
use worms_ng.Prelude.{
  Bool, Dict, List, Option, String, [], any, bit_and, bit_or, contains, get_elem?, if◌then◌else◌,
  insert, lookup, none, not, some, str_eq, suc, true, ℕ, ◌&&◌, ◌==◌, ◌||◌, ◌∷◌,
}
use worms_ng.Engine.Board.{edge_at, in_bounds, neighbor}
use worms_ng.Engine.Types.{
  Board, Direction, Edge, Point, State, Territories, Territory, Trails, Worm, board, directions,
  edge_eq, edge_key, new_edge, no_territory, point_eq, point_key, valid_direction,
}
use worms_ng.Prelude.Bits.{gather}

-- `State.hasTrail`
unfoldable pub has_trail : Trails → Point → Point → Bool
has_trail trails a b = contains (new_edge a b) trails

-- `State.maskWithoutTerritory`
unfoldable pub trail_mask : Board → Trails → Point → ℕ
trail_mask b trails p = gather (λ d. has_trail trails p (neighbor b p d))

-- `State.mask`: the stored mask is added where there is one.
unfoldable pub mask_of : Board → Trails → Territories → Point → ℕ
mask_of b trails territories p =
    let m = trail_mask b trails p in
    elim (lookup p territories) [ none ↦ m | some t ↦ if t.mask == 0 then m else bit_or m t.mask ]

abbrev pub mask_at : State → Point → ℕ
mask_at s p = mask_of (board s) s.trails s.territories p

-- `State.Mask`
unfoldable pub raw_mask : State → Point → ℕ
raw_mask s p = bit_and (mask_at s p) 63

-- `s.Territories[p]`, the zero value where there is none.
abbrev pub stored_territory : Territories → Point → Territory
stored_territory territories p = elim (lookup p territories) [ none ↦ no_territory | some t ↦ t ]

-- `State.Territory`
unfoldable pub territory_at : State → Point → Territory
territory_at s p = record (stored_territory s.territories p) { id = p; mask = mask_at s p }

-- `State.Colors`
pub colors : Territories → Dict Point String
colors [] = []
colors ((p, t) ∷ rest) = (p, t.color) ∷ colors rest

-- `State.Occupied`
unfoldable pub occupied : State → Point → Direction → Bool
occupied s p d =
    if not (valid_direction d) then true else has_trail s.trails p (neighbor (board s) p d)

-- `State.HalfTrailColor`
unfoldable pub half_trail_color : State → Point → Direction → Option String
unfolding occupied territory_at
half_trail_color s p d = if not (occupied s p d) then none else some (territory_at s p).color

-- `State.wormIndex`, with `none` for -1.
unfoldable pub worm_index : List Worm → String → Option ℕ
worm_index [] name = none
worm_index (w ∷ ws) name =
    let rest = worm_index ws name in
    if str_eq w.id name then some 0 else elim rest [ none ↦ none | some i ↦ some (suc i) ]

-- `State.worm`
unfoldable pub find_worm : List Worm → String → Option Worm
unfolding worm_index
find_worm ws name = elim (worm_index ws name) [ none ↦ none | some i ↦ get_elem? ws i ]

-- `State.hasWorm`
unfoldable pub has_worm : List Worm → Point → Bool
has_worm ws p = any (λ w. w.alive && point_eq w.position p) ws

-- `State.ReciprocalOK`: `none` is `nil`.
abbrev pub is_spoke : Board → Point → Edge → Bool
is_spoke b p e = any (λ d. edge_eq (edge_at b p d) e) directions

unfoldable pub reciprocal_ok : Board → Trails → Bool
reciprocal_ok b [] = true
reciprocal_ok b ((e, owner) ∷ rest) = is_spoke b e.a e && is_spoke b e.b e && reciprocal_ok b rest

-- `State.InsertTrail`, with `none` where it returns an error and leaves the state alone. The
-- territories of the endpoints are stored with their full masks.
unfoldable pub insert_trail : State → Point → Point → String → Option (State × Bool)
unfolding territory_at reciprocal_ok in_bounds
insert_trail s a b owner =
    let e = new_edge a b in
    let s₁ = record s { trails = insert e owner s.trails } in
    let s₂ = record s₁ { territories = insert a (territory_at s₁ a) s₁.territories } in
    let s₃ = record s₂ { territories = insert b (territory_at s₂ b) s₂.territories } in
    if not (in_bounds (board s) a) || not (in_bounds (board s) b) || point_eq a b
    then none
    else if not (is_spoke (board s) a e)
    then none
    else if contains e s.trails
    then none
    else some (s₃, reciprocal_ok (board s) s₃.trails)
