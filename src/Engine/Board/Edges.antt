-- ===== src/Engine/Board/Edges.antt =====
-- Canonical edges: an edge is the same from either end.
use worms_ng.Prelude.{arith, ◌<◌, ◌≡◌, ◌⊎◌}
use worms_ng.Engine.Board.{edge_at, neighbor}
use worms_ng.Engine.Board.Torus.{Inside, IsSound, neighbor-opposite}
use worms_ng.Engine.Types.{Board, Direction, Point, new_edge, opposite, point_eq_iff}

pub new_edge_comm : (a b : Point) → new_edge a b ≡ new_edge b a
unfolding new_edge
new_edge_comm a b = ground (arith, point_eq_iff a b)

-- The endpoints of an edge are its two points, in one order or the other.
pub new_edge_ends :
    (a b : Point)
    → ((new_edge a b).a ≡ a) × ((new_edge a b).b ≡ b)
      ⊎ ((new_edge a b).a ≡ b) × ((new_edge a b).b ≡ a)
unfolding new_edge
new_edge_ends a b = ground arith

-- On a board at least two wide and two high, whose height is even on the classic torus, the edge
-- of a spoke of a point of the board is the edge of the opposite spoke of the neighbour, so one
-- record of a trail serves both ends.
pub edge_at-opposite :
    (b : Board) (p : Point) (d : Direction)
    → IsSound b
    → Inside b p
    → d < 6
    → edge_at b (neighbor b p d) (opposite d) ≡ edge_at b p d
edge_at-opposite b p d s i h = rw (neighbor-opposite b p d s i h) (new_edge_comm (neighbor b p d) p)
