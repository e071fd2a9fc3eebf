-- ===== src/Engine/Board.antt =====
-- The geometry of a state, from engine.go and geometry.go: points, bounds, the torus and the six
-- neighbours of a point.
pub mod Wrap
pub mod Torus
pub mod Distinct
pub mod Edges
use worms_ng.Prelude.{
  ℕ, zero, suc, ◌+◌, Bool, true, false, not, ◌&&◌, ◌||◌, List, [], ◌∷◌, ◌++◌, map, ℤ, pos, negsuc,
  ◌+ℤ◌, ◌-ℤ◌, rem, is_odd, ltb_ℤ, leb_ℤ, pos_part, if◌then◌else◌, get_or, any, contains,
}
use worms_ng.Engine.Types.{
  Direction, valid_direction, directions, Point, Edge, new_edge, edge_eq, edge_key, point_eq, Board,
  Topology, is_toroidal, RulesMode, is_classic,
}

-- The offset tables of `Point.Neighbor`.
unfoldable pub axial_dq : Direction → ℤ
axial_dq d = get_or (pos 1 ∷ pos 0 ∷ negsuc 0 ∷ negsuc 0 ∷ pos 0 ∷ pos 1 ∷ []) d (pos 0)

unfoldable pub axial_dr : Direction → ℤ
axial_dr d = get_or (pos 0 ∷ pos 1 ∷ pos 1 ∷ pos 0 ∷ negsuc 0 ∷ negsuc 0 ∷ []) d (pos 0)

-- `Point.Neighbor`: axial directions, for the modern rules.
unfoldable pub point_neighbor : Point → Direction → Point
point_neighbor p d =
    if valid_direction d then record { q = p.q +ℤ axial_dq d; r = p.r +ℤ axial_dr d } else p

-- The classic board counts from 1.
abbrev pub start : RulesMode → ℤ
start m = if is_classic m then pos 1 else pos 0

unfoldable pub in_bounds : Board → Point → Bool
in_bounds b p =
    leb_ℤ (start b.mode) p.q
    && ltb_ℤ p.q (start b.mode +ℤ b.width)
    && leb_ℤ (start b.mode) p.r
    && ltb_ℤ p.r (start b.mode +ℤ b.height)

-- `((x-start)%size+size)%size + start`
unfoldable pub wrap_coord : ℤ → ℤ → ℤ → ℤ
wrap_coord start size x = rem (rem (x -ℤ start) size +ℤ size) size +ℤ start

unfoldable pub wrap : Board → Point → Point
wrap b p = record {
  q = if ltb_ℤ (pos 0) b.width then wrap_coord (start b.mode) b.width p.q else p.q;
  r = if ltb_ℤ (pos 0) b.height then wrap_coord (start b.mode) b.height p.r else p.r;
}

-- Odd rows are shifted to the right.
unfoldable pub classic_dq : Bool → Direction → ℤ
classic_dq true d = get_or (pos 1 ∷ pos 1 ∷ pos 0 ∷ negsuc 0 ∷ pos 0 ∷ pos 1 ∷ []) d (pos 0)
classic_dq false d = get_or (pos 1 ∷ pos 0 ∷ negsuc 0 ∷ negsuc 0 ∷ negsuc 0 ∷ pos 0 ∷ []) d (pos 0)

unfoldable pub classic_dr : Direction → ℤ
classic_dr d = get_or (pos 0 ∷ pos 1 ∷ pos 1 ∷ pos 0 ∷ negsuc 0 ∷ negsuc 0 ∷ []) d (pos 0)

-- `State.Neighbor`
unfoldable pub neighbor : Board → Point → Direction → Point
unfolding point_neighbor classic_dq classic_dr wrap wrap_coord
neighbor b p d =
    let shifted =
      if is_classic b.mode
      then record { q = p.q +ℤ classic_dq (is_odd p.r) d; r = p.r +ℤ classic_dr d }
      else point_neighbor p d in
    if not (valid_direction d)
    then p
    else if is_toroidal b.topology
    then wrap b shifted
    else shifted

-- `State.Neighbors`
pub neighbors : Board → Point → List Point
neighbors b p = map (neighbor b p) directions

-- `State.Edge`
abbrev pub edge_at : Board → Point → Direction → Edge
edge_at b p d = new_edge p (neighbor b p d)

-- The points from `x` on in the row `y`, `n` of them.
row : ℕ → ℤ → ℤ → List Point
row zero x y = []
row (suc n) x y = record { q = x; r = y } ∷ row n (x +ℤ pos 1) y

rows : ℕ → ℕ → ℤ → ℤ → List Point
unfolding row
rows zero n x y = []
rows (suc m) n x y = row n x y ++ rows m n x (y +ℤ pos 1)

-- `State.points`, row by row. A loop up to `start+size` runs `size` times, or never below 0.
unfoldable pub points : Board → List Point
unfolding rows
points b = rows (pos_part b.height) (pos_part b.width) (start b.mode) (start b.mode)

-- `State.AllEdges`: each edge where it is met first. `seen` is the `seen` map and `out` at once,
-- since they hold the same edges.
add_edges : Board → Point → List Direction → List Edge → List Edge
add_edges b p [] seen = seen
add_edges b p (d ∷ ds) seen =
    let e = edge_at b p d in
    add_edges b p ds (if any (edge_eq e) seen then seen else seen ++ e ∷ [])

collect_edges : Board → List Point → List Edge → List Edge
unfolding add_edges
collect_edges b [] seen = seen
collect_edges b (p ∷ ps) seen = collect_edges b ps (add_edges b p directions seen)

unfoldable pub all_edges : Board → List Edge
unfolding collect_edges points
all_edges b = collect_edges b (points b) []

-- `State.AdjacentTerritories`
unfoldable pub adjacent_territories : Board → Edge → List Point
unfolding in_bounds
adjacent_territories b e =
    let first = if in_bounds b e.a then e.a ∷ [] else [] in
    if is_toroidal b.topology && in_bounds b e.a && in_bounds b e.b
    then e.a ∷ e.b ∷ []
    else if in_bounds b e.b && not (point_eq e.b e.a)
    then first ++ e.b ∷ []
    else first
