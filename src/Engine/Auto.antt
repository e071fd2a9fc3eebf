-- ===== src/Engine/Auto.antt =====
-- `chooseAuto` of controller.go: among the legal moves, those that capture most, then collide
-- least, then leave most moves; a draw is settled by the worm's seed.
pub mod Choice
pub mod Best
use worms_ng.Prelude.{
  Bool, List, Option, [], bit_xor, eq_ℤ, get_elem?, get_or, if◌then◌else◌, is_empty, length, ltb,
  ltb_ℤ, negsuc, none, not, pos, some, ℕ, ℤ, ◌%◌, ◌&&◌, ◌*◌, ◌++◌, ◌+◌, ◌-ℤ◌, ◌==◌, ◌^◌, ◌||◌, ◌∷◌,
}
use worms_ng.Engine.Board.{neighbor}
use worms_ng.Engine.Moves.{legal_moves, step}
use worms_ng.Engine.Rules.{xorshift}
use worms_ng.Engine.Types.{Direction, Point, State, Worm, board, err, no_move, ok, point_eq, u64}

pub record AutoScore : Type 0 where
  pub capture : ℤ
  pub collision : ℕ
  pub survival : ℤ

abbrev pub no_score : AutoScore
no_score = record { capture = negsuc 0; collision = 1073741824; survival = negsuc 0 }

unfoldable pub better : AutoScore → AutoScore → Bool
better a b =
    ltb_ℤ b.capture a.capture
    || eq_ℤ a.capture b.capture && ltb a.collision b.collision
    || eq_ℤ a.capture b.capture && a.collision == b.collision && ltb_ℤ b.survival a.survival

unfoldable pub same_score : AutoScore → AutoScore → Bool
same_score a b =
    eq_ℤ a.capture b.capture && a.collision == b.collision && eq_ℤ a.survival b.survival

-- The live worms but the one in slot `i` that stand on `to`; `j` is the slot of the first.
unfoldable pub collisions : ℕ → Point → ℕ → List Worm → ℕ
collisions i to j [] = 0
collisions i to j (w ∷ ws) =
    (if not (j == i) && w.alive && point_eq w.position to then 1 else 0)
    + collisions i to (j + 1) ws

-- The score of the move `d`, on a trial copy; `none` where the trial is rejected.
unfoldable pub score_move : State → ℕ → Worm → Direction → Option AutoScore
score_move s i w d =
    let (trial, result) = step s w.id d in
    let after : ℤ = elim (get_elem? trial.worms i) [ none ↦ pos 0 | some v ↦ v.score ] in
    elim result [
      | err e ↦ none
      | ok e ↦ some (record {
        capture = after -ℤ w.score;
        collision = collisions i (neighbor (board s) w.position d) 0 s.worms;
        survival = pos (length (legal_moves trial w.id));
      })
    ]

-- One round of the loop, on the best score so far and the moves that reach it, in order.
unfoldable pub consider :
    Option AutoScore → Direction → AutoScore × List Direction → AutoScore × List Direction
consider none d acc = acc
consider (some score) d (best, ties) =
    if better score best
    then (score, d ∷ [])
    else if same_score score best
    then (best, ties ++ d ∷ [])
    else (best, ties)

unfoldable pub best_moves :
    State → ℕ → Worm → List Direction → AutoScore × List Direction → AutoScore × List Direction
best_moves s i w [] acc = acc
best_moves s i w (d ∷ ds) acc = best_moves s i w ds (consider (score_move s i w d) d acc)

-- The random number that settles a draw.
unfoldable pub draw : State → ℕ → Worm → ℕ
unfolding xorshift
draw s i w = xorshift (
    bit_xor
      (bit_xor (bit_xor w.brain_seed (u64 (u64 (s.round + 1) * 2 ^ 32)))
        (u64 (u64 (s.tick + 1) * 2 ^ 16)))
      (i + 1))

-- The last lines of `chooseAuto`.
unfoldable pub pick : List Direction → List Direction → ℕ → Direction
pick moves [] x = get_or moves 0 no_move
pick moves (d ∷ []) x = d
pick moves (d ∷ e ∷ ties) x = get_or (d ∷ e ∷ ties) (x % length (d ∷ e ∷ ties)) no_move

-- `chooseAuto`, for the worm `w` in slot `i`.
unfoldable pub choose_auto : State → ℕ → Worm → Direction
choose_auto s i w =
    let moves = legal_moves s w.id in
    if is_empty moves
    then no_move
    else pick moves (best_moves s i w moves (no_score, [])).1 (draw s i w)
