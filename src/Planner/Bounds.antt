-- ===== src/Planner/Bounds.antt =====
-- The bounds of what planner.go counts around a worm.
use worms_ng.Prelude.{
  Bool, List, String, [], arith, count_if, get_elem?, if_elim, length, not, option_elim, pos, suc,
  ℕ, ℤ, ◌∷◌, ◌≤ℤ◌, ◌≤◌,
}
use worms_ng.Engine.Board.{neighbor}
use worms_ng.Engine.Masks.{find_worm, mask_at}
use worms_ng.Engine.Moves.{is_open, legal_moves, open_moves, step}
use worms_ng.Engine.Types.{
  Direction, Event, Point, Result, State, Worm, board, directions, err, is_toroidal, ok,
}
use worms_ng.Planner.{Alternative, Config}
use worms_ng.Planner.Scores.{border_score, is_traversable, score, tried}

count_if-le {ℓ} : {A : Type ℓ} (f : A → Bool) (xs : List A) → count_if f xs ≤ length xs
count_if-le f [] = omega arith
count_if-le f (x ∷ xs) = ground (arith, count_if-le f xs)

border_score-bounds :
    (s : State) (p : Point) → (pos 0 ≤ℤ border_score s p) × (border_score s p ≤ℤ pos 6)
unfolding border_score
border_score-bounds s p =
    if_elim (λ x. (pos 0 ≤ℤ x) × (x ≤ℤ pos 6)) (is_toroidal s.topology)
      (λ e. (omega arith, omega arith))
      (λ e. (
        omega arith,
        omega (arith, count_if-le (λ d. is_traversable s (neighbor (board s) p d)) directions),
      ))

length-open_moves :
    (s : State) (m : ℕ) (p : Point) (ds : List Direction) → length (open_moves s m p ds) ≤ length ds
unfolding open_moves
length-open_moves s m p [] = omega arith
length-open_moves s m p (d ∷ ds) =
    let rest = length-open_moves s m p ds in
    if_elim (λ (l : List Direction). length l ≤ suc (length ds)) (is_open s m p d)
      (λ e. omega (arith, rest)) (λ e. omega (arith, rest))

length-legal_moves : (s : State) (name : String) → length (legal_moves s name) ≤ 6
unfolding legal_moves
length-legal_moves s name =
    option_elim (λ (l : List Direction). length l ≤ 6) (find_worm s.worms name) (λ e. omega arith)
      (λ w e.
        if_elim (λ (l : List Direction). length l ≤ 6) (not w.alive) (λ e. omega arith)
          (λ e. length-open_moves s (mask_at s w.position) w.position directions))

pub Bounded : Alternative → Type 0
Bounded a =
    (pos 0 ≤ℤ a.border) × (a.border ≤ℤ pos 6) × (pos 0 ≤ℤ a.survival) × (a.survival ≤ℤ pos 6)

tried-Bounded :
    (c : Config) (i : ℕ) (name : String) (before : ℤ) (d : Direction) (r : State × Result Event)
    → Bounded (tried c i name before d r)
unfolding tried Bounded
tried-Bounded c i name before d (s, err e) = (omega arith, omega arith, omega arith, omega arith)
tried-Bounded c i name before d (s, ok e) =
    option_elim Bounded (get_elem? s.worms i)
      (λ e. (omega arith, omega arith, omega arith, omega arith))
      (λ v e.
        let border = border_score-bounds s v.position in
        (border.0, border.1, omega arith, omega (arith, length-legal_moves s name)))

-- The border and the survival of every alternative are from 0 to 6.
pub score-Bounded :
    (c : Config) (s : State) (i : ℕ) (w : Worm) (d : Direction) → Bounded (score c s i w d)
unfolding score
score-Bounded c s i w d = tried-Bounded c i w.id w.score d (step s w.id d)
