-- ===== src/Engine/Auto/Choice.antt =====
-- The automatic choice is a legal move.
use native.Mathlib.Nat.{mod-lt}
use worms_ng.Prelude.{
  All, All-append, All-map, List, Option, [], any, arith, false, get_or-All, if_elim, is_empty,
  length, length_pos, none, refl, some, true, ℕ, ◌%◌, ◌==◌, ◌∷◌, ◌≡◌,
}
use worms_ng.Engine.Auto.{
  AutoScore, best_moves, better, choose_auto, consider, draw, no_score, pick, same_score,
  score_move,
}
use worms_ng.Engine.Moves.{legal_moves}
use worms_ng.Engine.Types.{Direction, State, Worm, no_move}

abbrev pub Listed : List Direction → Direction → Type 0
Listed moves d = any (λ x. x == d) moves ≡ true

pub Listed-self : (moves : List Direction) → All (Listed moves) moves
Listed-self [] = tt
Listed-self (d ∷ moves) = (
  ground arith,
  All-map (Listed moves) (Listed (d ∷ moves)) moves (λ x h. ground arith) (Listed-self moves),
)

-- The ties are always among the moves.
consider-All :
    (P : Direction → Type 0) (score : Option AutoScore) (d : Direction) (best : AutoScore)
    (ties : List Direction)
    → P d
    → All P ties
    → All P (consider score d (best, ties)).1
unfolding consider
consider-All P none d best ties new old = old
consider-All P (some score) d best ties new old =
    if_elim (λ (r : AutoScore × List Direction). All P r.1) (better score best) (λ e. (new, tt))
      (λ e.
        if_elim (λ (r : AutoScore × List Direction). All P r.1) (same_score score best)
          (λ e. All-append P ties (d ∷ []) old (new, tt)) (λ e. old))

best_moves-All :
    (P : Direction → Type 0) (s : State) (i : ℕ) (w : Worm) (ds : List Direction) (best : AutoScore)
    (ties : List Direction)
    → All P ds
    → All P ties
    → All P (best_moves s i w ds (best, ties)).1
unfolding best_moves
best_moves-All P s i w [] best ties new old = old
best_moves-All P s i w (d ∷ ds) best ties new old =
    let (best', ties') = consider (score_move s i w d) d (best, ties) in
    best_moves-All P s i w ds best' ties' new.1
      (consider-All P (score_move s i w d) d best ties new.0 old)

pick-All :
    (P : Direction → Type 0) (moves ties : List Direction) (x : ℕ)
    → is_empty moves ≡ false
    → All P moves
    → All P ties
    → P (pick moves ties x)
unfolding pick
pick-All P moves [] x some_move all h =
    get_or-All P moves 0 no_move all (length_pos moves some_move)
pick-All P moves (d ∷ []) x some_move all h = h.0
pick-All P moves (d ∷ e ∷ ties) x some_move all h =
    get_or-All P (d ∷ e ∷ ties) (x % length (d ∷ e ∷ ties)) no_move h
      (mod-lt x (length_pos (d ∷ e ∷ ties) refl))

-- While the worm has a legal move, chooseAuto returns one of its legal moves.
pub choose_auto-legal :
    (s : State) (i : ℕ) (w : Worm)
    → is_empty (legal_moves s w.id) ≡ false
    → any (λ x. x == choose_auto s i w) (legal_moves s w.id) ≡ true
unfolding choose_auto
choose_auto-legal s i w some_move =
    let moves = legal_moves s w.id in
    let all = Listed-self moves in
    rw some_move (
      pick-All (Listed moves) moves (best_moves s i w moves (no_score, [])).1 (draw s i w) some_move
        all (best_moves-All (Listed moves) s i w moves no_score [] all tt))
