-- ===== src/Engine/Auto/Best.antt =====
-- The choice of `chooseAuto` is the best by its own score.
use native.Mathlib.Nat.{mod-lt}
use worms_ng.Prelude.{
  ==_iff, All, All-append, Bool-cases, List, Option, [], any, ap, arith, false, get_or-All, if_elim,
  inl, inr, is_empty, length, length_pos, ltb, ltb_ℤ, neg_part, none, pos_part, refl, some, subst,
  sym, true, ℕ, ℤ, ◌%◌, ◌++◌, ◌+◌, ◌<ℤ◌, ◌<◌, ◌==◌, ◌∙◌, ◌∷◌, ◌≡◌, ◌⊎◌,
}
use worms_ng.Engine.Auto.{
  AutoScore, best_moves, better, choose_auto, consider, draw, no_score, pick, same_score,
  score_move,
}
use worms_ng.Engine.Moves.{legal_moves}
use worms_ng.Engine.Types.{Direction, State, Worm, no_move}

better_irrefl : (a : AutoScore) → better a a ≡ false
unfolding better
better_irrefl a = ground arith

-- `better` on the numbers, without the tests.
SameInt : ℤ → ℤ → Type 0
SameInt x y = pos_part x + neg_part y ≡ pos_part y + neg_part x

Beats : AutoScore → AutoScore → Type 0
unfolding SameInt
Beats a b =
    (b.capture <ℤ a.capture)
    ⊎ SameInt a.capture b.capture
      × ((a.collision < b.collision) ⊎ (a.collision ≡ b.collision) × (b.survival <ℤ a.survival))

Beats-of_better : (a b : AutoScore) → better a b ≡ true → Beats a b
unfolding better Beats
Beats-of_better a b h = elim (Bool-cases (ltb_ℤ b.capture a.capture)) [
  | inl more ↦ inl (ground arith)
  | inr less ↦ elim (Bool-cases (ltb a.collision b.collision)) [
    | inl fewer ↦ inr (ground arith, inl (ground arith))
    | inr others ↦ inr (ground arith, inr (ground arith, ground arith))
  ]
]

better-of_Beats : (a b : AutoScore) → Beats a b → better a b ≡ true
unfolding better Beats
better-of_Beats a b (inl more) = ground arith
better-of_Beats a b (inr (same, inl fewer)) = ground arith
better-of_Beats a b (inr (same, inr (equal, longer))) = ground arith

Beats-trans : (a b c : AutoScore) → Beats a b → Beats b c → Beats a c
unfolding Beats
Beats-trans a b c (inl more) (inl more') = inl (omega arith)
Beats-trans a b c (inl more) (inr (same, rest)) = inl (omega arith)
Beats-trans a b c (inr (same, rest)) (inl more) = inl (omega arith)
Beats-trans a b c (inr (same, inl fewer)) (inr (same', inl fewer')) =
    inr (omega arith, inl (omega arith))
Beats-trans a b c (inr (same, inl fewer)) (inr (same', inr (equal, longer))) =
    inr (omega arith, inl (omega arith))
Beats-trans a b c (inr (same, inr (equal, longer))) (inr (same', inl fewer)) =
    inr (omega arith, inl (omega arith))
Beats-trans a b c (inr (same, inr (equal, longer))) (inr (same', inr (equal', longer'))) =
    inr (omega arith, inr (omega arith, omega arith))

-- What does not beat `b` does not beat what beats `b`.
better_trans : (a b c : AutoScore) → better a b ≡ true → better c b ≡ false → better c a ≡ false
better_trans a b c h k = elim (Bool-cases (better c a)) [
  | inl beats ↦
      let through =
        better-of_Beats c b
          (Beats-trans c a b (Beats-of_better c a beats) (Beats-of_better a b h)) in
      absurd (let e : true ≡ false = sym through ∙ k in cc)
  | inr not_better ↦ not_better
]

better_same : (a b c : AutoScore) → same_score a b ≡ true → better c b ≡ false → better c a ≡ false
unfolding better same_score
better_same a b c h k = ground arith

same_self : (a : AutoScore) → same_score a a ≡ true
unfolding same_score
same_self a = ground arith

append_full : (xs : List Direction) (d : Direction) → is_empty (xs ++ d ∷ []) ≡ false
append_full [] d = refl
append_full (x ∷ xs) d = refl

module _ (s : State) (i : ℕ) (w : Worm) where
  -- The move reaches the score `best`.
  abbrev Reaches : AutoScore → Direction → Type 0
  Reaches best d = (sc : AutoScore) × (score_move s i w d ≡ some sc) × (same_score sc best ≡ true)

  -- What the loop keeps: its moves reach its score, which is the first until there is a move.
  record Leading (acc : AutoScore × List Direction) : Type 0 where
    reached : All (Reaches acc.0) acc.1
    begun : is_empty acc.1 ≡ true → acc.0 ≡ no_score

  consider-Leading :
      (o : Option AutoScore) (d : Direction) (acc : AutoScore × List Direction)
      → score_move s i w d ≡ o
      → Leading acc
      → Leading (consider o d acc)
  unfolding consider
  consider-Leading none d acc e h = h
  consider-Leading (some sc) d (best, ties) e h =
      if_elim Leading (better sc best)
        (λ more. record { reached = ((sc, e, same_self sc), tt); begun = λ empty. cc })
        (λ less.
          if_elim Leading (same_score sc best)
            (λ same. record {
              reached = All-append (Reaches best) ties (d ∷ []) h.reached ((sc, e, same), tt);
              begun = λ empty. absurd (let e : true ≡ false = sym empty ∙ append_full ties d in cc);
            })
            (λ differs. h))

  -- The score of the loop does not fall, and no considered move beats it.
  consider-rises :
      (o : Option AutoScore) (d : Direction) (acc : AutoScore × List Direction) (c : AutoScore)
      → better c acc.0 ≡ false
      → better c (consider o d acc).0 ≡ false
  unfolding consider
  consider-rises none d acc c h = h
  consider-rises (some sc) d (best, ties) c h =
      if_elim (λ (r : AutoScore × List Direction). better c r.0 ≡ false) (better sc best)
        (λ more. better_trans sc best c more h)
        (λ less.
          if_elim (λ (r : AutoScore × List Direction). better c r.0 ≡ false) (same_score sc best)
            (λ same. h) (λ differs. h))

  consider-beats :
      (sc : AutoScore) (d : Direction) (acc : AutoScore × List Direction)
      → better sc (consider (some sc) d acc).0 ≡ false
  unfolding consider
  consider-beats sc d (best, ties) =
      if_elim (λ (r : AutoScore × List Direction). better sc r.0 ≡ false) (better sc best)
        (λ more. better_irrefl sc)
        (λ less.
          if_elim (λ (r : AutoScore × List Direction). better sc r.0 ≡ false) (same_score sc best)
            (λ same. less) (λ differs. less))

  best_moves-Leading :
      (ds : List Direction) (acc : AutoScore × List Direction)
      → Leading acc
      → Leading (best_moves s i w ds acc)
  unfolding best_moves
  best_moves-Leading [] acc h = h
  best_moves-Leading (d ∷ ds) acc h =
      best_moves-Leading ds (consider (score_move s i w d) d acc)
        (consider-Leading (score_move s i w d) d acc refl h)

  best_moves-rises :
      (ds : List Direction) (acc : AutoScore × List Direction) (c : AutoScore)
      → better c acc.0 ≡ false
      → better c (best_moves s i w ds acc).0 ≡ false
  unfolding best_moves
  best_moves-rises [] acc c h = h
  best_moves-rises (d ∷ ds) acc c h =
      best_moves-rises ds (consider (score_move s i w d) d acc) c
        (consider-rises (score_move s i w d) d acc c h)

  best_moves-beats :
      (ds : List Direction) (acc : AutoScore × List Direction) (d : Direction) (c : AutoScore)
      → any (λ x. x == d) ds ≡ true
      → score_move s i w d ≡ some c
      → better c (best_moves s i w ds acc).0 ≡ false
  unfolding best_moves
  best_moves-beats [] acc d c member e = cc
  best_moves-beats (x ∷ ds) acc d c member e = elim (Bool-cases (x == d)) [
    | inl here ↦
        let eq : x ≡ d = (==_iff x d).0 here in
        let scored : score_move s i w x ≡ some c = ap (score_move s i w) eq ∙ e in
        best_moves-rises ds (consider (score_move s i w x) x acc) c (
          subst (λ (o : Option AutoScore). better c (consider o x acc).0 ≡ false) (sym scored)
            (consider-beats c x acc))
    | inr later ↦ best_moves-beats ds (consider (score_move s i w x) x acc) d c (ground arith) e
  ]

-- A choice among moves that all satisfy `P`.
pick-ties :
    (P : Direction → Type 0) (moves ties : List Direction) (x : ℕ)
    → is_empty ties ≡ false
    → All P ties
    → P (pick moves ties x)
unfolding pick
pick-ties P moves [] x some_tie all = cc
pick-ties P moves (d ∷ []) x some_tie all = all.0
pick-ties P moves (d ∷ e ∷ ties) x some_tie all =
    get_or-All P (d ∷ e ∷ ties) (x % length (d ∷ e ∷ ties)) no_move all
      (mod-lt x (length_pos (d ∷ e ∷ ties) refl))

listed_full :
    (moves : List Direction) (d : Direction)
    → any (λ x. x == d) moves ≡ true
    → is_empty moves ≡ false
listed_full [] d h = cc
listed_full (x ∷ moves) d h = refl

-- A legal move whose trial step succeeds, and whose score is above the start of the loop (a
-- capture of -1), has no better score than the move that chooseAuto returns, whose trial step
-- succeeds too.
pub choose_auto_best :
    (s : State) (i : ℕ) (w : Worm) (d : Direction) (c : AutoScore)
    → any (λ x. x == d) (legal_moves s w.id) ≡ true
    → score_move s i w d ≡ some c
    → better c no_score ≡ true
    → (chosen : AutoScore) × (score_move s i w (choose_auto s i w) ≡ some chosen)
      × (better c chosen ≡ false)
unfolding choose_auto
choose_auto_best s i w d c legal scored beats =
    let moves = legal_moves s w.id in
    let r = best_moves s i w moves (no_score, []) in
    let lead =
      best_moves-Leading s i w moves (no_score, []) (record { reached = tt; begun = λ e. refl }) in
    let top = best_moves-beats s i w moves (no_score, []) d c legal scored in
    elim (Bool-cases (is_empty r.1)) [
      | inl empty ↦
          let start = subst (λ (x : AutoScore). better c x ≡ false) (lead.begun empty) top in
          absurd (let e : true ≡ false = sym beats ∙ start in cc)
      | inr full ↦
          let (chosen, reached, same) =
            pick-ties (Reaches s i w r.0) moves r.1 (draw s i w) full lead.reached in
          let some_move : is_empty moves ≡ false = listed_full moves d legal in
          rw some_move (chosen, reached, better_same chosen r.0 c same top)
    ]
