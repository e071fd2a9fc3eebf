-- ===== src/Match/Alike.antt =====
-- What the SAME controller of match.go and an outcome leave of the worms of a state.
use worms_ng.Prelude.{
  List, Option, String, [], ap, arith, get_elem?, if_elim, if◌then◌else◌, none, option_elim, pos,
  refl, some, subst, suc, sym, zero, ℕ, ◌&&◌, ◌∙◌, ◌∷◌, ◌≡◌,
}
use worms_ng.Engine.Board.Torus.{Inside}
use worms_ng.Engine.Moves.Preserve.{fallen-Wf}
use worms_ng.Engine.Moves.WellFormed.{WellFormed, Wf, completed}
use worms_ng.Engine.Types.{Board, Direction, State, Territories, Trails, Worm}
use worms_ng.Match.Play.{retire}
use worms_ng.Match.Same.{
  apply_same_previous, apply_worms, is_same, nearest_action, nearest_previous, prepare_same,
  prepare_worms, repeated_rule,
}

-- Two worms that differ in nothing that the invariant reads.
pub record IsAlike (v w : Worm) : Type 0 where
  pub same_id : w.id ≡ v.id
  pub same_score : w.score ≡ v.score
  pub same_life : w.alive ≡ v.alive
  pub same_place : w.position ≡ v.position

abbrev pub AllAlike : List Worm → List Worm → Type 0
AllAlike vs ws =
    (i : ℕ) (w : Worm)
    → get_elem? ws i ≡ some w
    → (v : Worm) × (get_elem? vs i ≡ some v) × IsAlike v w

pub alike_cons :
    (v w : Worm) (vs ws : List Worm) → IsAlike v w → AllAlike vs ws → AllAlike (v ∷ vs) (w ∷ ws)
alike_cons v w vs ws h hs zero u g = (v, refl, subst (IsAlike v) (cc) h)
alike_cons v w vs ws h hs (suc i) u g = hs i u g

pub IsAlike-self : (w : Worm) → IsAlike w w
IsAlike-self w = record { same_id = refl; same_score = refl; same_life = refl; same_place = refl }

pub alike-Wf :
    {b : Board} {trails : Trails} {territories : Territories} {vs : List Worm} (ws : List Worm)
    → AllAlike vs ws
    → Wf b trails territories vs
    → Wf b trails territories ws
alike-Wf {b} {trails} {territories} ws alike h = record {
  sound = h.sound;
  territories_ok = h.territories_ok;
  trails_ok = h.trails_ok;
  worms_ok = record {
    named = λ i {w} g e.
        let (v, found, a) = alike i w g in h.worms_ok.named i found (sym a.same_id ∙ e);
    distinct = λ i j {v = u} {w} g g' e.
        let (v, found, a) = alike i u g in
        let (v', found', a') = alike j w g' in
        h.worms_ok.distinct i j found found' (sym a.same_id ∙ (e ∙ a'.same_id));
    on_board = λ i {w} g live.
        let (v, found, a) = alike i w g in
        subst (Inside b) (sym a.same_place) (h.worms_ok.on_board i found (sym a.same_life ∙ live));
  };
  scores_ok = λ i w g.
      let (v, found, a) = alike i w g in
      a.same_score
      ∙ (h.scores_ok i v found
          ∙ ap (λ (x : String). pos (completed x territories)) (sym a.same_id));
}

prepare_worms-AllAlike :
    (last : Option Direction) (s : State) (before ws : List Worm)
    → AllAlike ws (prepare_worms last s before ws)
unfolding prepare_worms
prepare_worms-AllAlike last s before [] = λ i w g. absurd (ground arith)
prepare_worms-AllAlike last s before (w ∷ ws) =
    let source : Option Direction = elim (nearest_action s before) [
      | none ↦ last
      | some d ↦ some d
    ] in
    let taught : Worm = elim source [ none ↦ w | some d ↦ record w { rules = repeated_rule d } ] in
    let w' = if is_same w.controller && w.alive then taught else w in
    alike_cons w w' ws (prepare_worms last s (w' ∷ before) ws)
      (if_elim (IsAlike w) (is_same w.controller && w.alive)
        (λ e.
          option_elim (IsAlike w) source (λ e'. IsAlike-self w)
            (λ d e'. record {
              same_id = refl;
              same_score = refl;
              same_life = refl;
              same_place = refl;
            }))
        (λ e. IsAlike-self w))
      (prepare_worms-AllAlike last s (w' ∷ before) ws)

apply_worms-AllAlike : (before ws : List Worm) → AllAlike ws (apply_worms before ws)
unfolding apply_worms
apply_worms-AllAlike before [] = λ i w g. absurd (ground arith)
apply_worms-AllAlike before (w ∷ ws) =
    let moved : Worm = elim (nearest_previous before) [
      | none ↦ w
      | some d ↦ record w { previous = d }
    ] in
    let w' = if is_same w.controller && w.alive then moved else w in
    alike_cons w w' ws (apply_worms (w' ∷ before) ws)
      (if_elim (IsAlike w) (is_same w.controller && w.alive)
        (λ e.
          option_elim (IsAlike w) (nearest_previous before) (λ e'. IsAlike-self w)
            (λ d e'. record {
              same_id = refl;
              same_score = refl;
              same_life = refl;
              same_place = refl;
            }))
        (λ e. IsAlike-self w))
      (apply_worms-AllAlike (w' ∷ before) ws)

pub prepare_same-WellFormed :
    (last : Option Direction) (s : State) → WellFormed s → WellFormed (prepare_same last s)
unfolding prepare_same
prepare_same-WellFormed last s h =
    alike-Wf (prepare_worms last s [] s.worms) (prepare_worms-AllAlike last s [] s.worms) h

pub apply_same-WellFormed : (s : State) → WellFormed s → WellFormed (apply_same_previous s)
unfolding apply_same_previous
apply_same-WellFormed s h = alike-Wf (apply_worms [] s.worms) (apply_worms-AllAlike [] s.worms) h

pub retire-WellFormed : (s : State) (i : ℕ) → WellFormed s → WellFormed (retire s i)
unfolding retire
retire-WellFormed s i h = fallen-Wf s i h
