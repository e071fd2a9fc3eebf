-- ===== src/Engine/Moves/StepLaws.antt =====
-- `Step` on every branch: what it rejects, and what a move does to the state.
use worms_ng.Prelude.{
  Bool-cases, Option-cases, String, [], any, ap, arith, false, get_elem?, inl, inr, none, refl,
  some, subst, sym, true, ℕ, ◌&&◌, ◌<◌, ◌==◌, ◌↔◌, ◌∙◌, ◌≡◌,
}
use worms_ng.Engine.Board.{neighbor}
use worms_ng.Engine.Board.Torus.{Inside-of_in_bounds}
use worms_ng.Engine.Masks.{find_worm, has_trail, mask_at, stored_territory, worm_index}
use worms_ng.Engine.Masks.Laws.{has_bit-mask_of}
use worms_ng.Engine.Moves.{is_open, legal_moves, perform, step, step_refusal}
use worms_ng.Engine.Moves.Legal.{
  Passes, Passes-of_none, legal_moves_lem, none-of_Passes, worm_index_lem,
}
use worms_ng.Engine.Moves.Preserve.{perform-WellFormed}
use worms_ng.Engine.Moves.Recolor.{stored_TerritoryOk}
use worms_ng.Engine.Moves.WellFormed.{WellFormed}
use worms_ng.Engine.Types.{
  Direction, EngineError, Event, Result, State, Worm, board, err, ok, result_cases, valid_direction,
}

-- A successful step has performed the move of the worm that the name finds, and passed the tests.
pub step_performs :
    (s : State) (name : String) (d : Direction) {e : Event}
    → (step s name d).1 ≡ ok e
    → (i : ℕ) × (w : Worm) × (get_elem? s.worms i ≡ some w)
      × (w.id ≡ name)
      × (find_worm s.worms name ≡ some w)
      × Passes s w d
      × (step s name d ≡ ((perform s i w name d).0, ok (perform s i w name d).1))
unfolding step find_worm
step_performs s name d {e} done = elim (Bool-cases s.game_over) [
  | inl over ↦ absurd (ground arith)
  | inr running ↦ elim (Option-cases (worm_index s.worms name)) [
    | inl absent ↦ absurd (ground arith)
    | inr (i, found) ↦
        let (w, here, named) = worm_index_lem s.worms name found in
        elim (Option-cases (step_refusal s w d)) [
          | inr (reason, refused) ↦ absurd (ground arith)
          | inl accepted ↦ (
            i,
            w,
            here,
            named,
            rw (found, find_worm) here,
            Passes-of_none s w d accepted,
            simp running (rw found (rw here (rw accepted refl))),
          )
        ]
  ]
]

-- A Step that returns an error leaves the state as it was.
pub step_error_unchanged :
    (s : State) (name : String) (d : Direction) {e : EngineError}
    → (step s name d).1 ≡ err e
    → (step s name d).0 ≡ s
unfolding step
step_error_unchanged s name d h = ground arith

-- Step keeps the invariant, whether the move is accepted or rejected.
pub step-WellFormed :
    (s : State) (name : String) (d : Direction) → WellFormed s → WellFormed (step s name d).0
step-WellFormed s name d h = elim (result_cases (step s name d).1) [
  | inr (e, refused) ↦ subst WellFormed (sym (step_error_unchanged s name d refused)) h
  | inl (e, done) ↦
      let (i, w, here, named, found, p, result) = step_performs s name d done in
      let from = h.worms_ok.on_board i here p.live in
      let to = Inside-of_in_bounds (board s) (neighbor (board s) w.position d) p.within in
      let after = perform-WellFormed s i w name d h here named p.valid from to in
      subst WellFormed (sym (ap (λ (r : State × Result Event). r.0) result)) after
]

-- The tests of `Step` that `LegalMoves` makes too, and the one that follows from the mask.
open-Passes :
    (s : State) (w : Worm) (d : Direction)
    → (stored_territory s.territories w.position).mask < 256
    → (w.alive && valid_direction d && is_open s (mask_at s w.position) w.position d) ≡ true
    → Passes s w d
unfolding is_open
open-Passes s w d fits open_spoke =
    let valid : d < 6 = ground arith in
    record {
      live = ground arith;
      valid = valid;
      free = ground arith;
      within = ground arith;
      vacant = ground arith;
      unclaimed =
          unfold has_trail in
          (ground
            (arith, has_bit-mask_of (board s) s.trails s.territories w.position d fits valid));
    }

Passes-open :
    (s : State) (w : Worm) (d : Direction)
    → Passes s w d
    → (w.alive && valid_direction d && is_open s (mask_at s w.position) w.position d) ≡ true
unfolding is_open
Passes-open s w d p = ground arith

-- A worm that passes the tests moves.
pub step-of_Passes :
    (s : State) (name : String) (d : Direction) {w : Worm}
    → s.game_over ≡ false
    → find_worm s.worms name ≡ some w
    → Passes s w d
    → (e : Event) × ((step s name d).1 ≡ ok e)
unfolding step find_worm
step-of_Passes s name d {w} running found p = elim (Option-cases (worm_index s.worms name)) [
  | inl absent ↦ absurd (ground arith)
  | inr (i, index) ↦ (
    (perform s i w name d).1,
    let here : get_elem? s.worms i ≡ some w = ground arith in
        simp (running, index, here, none-of_Passes s w d p),
  )
]

legal_moves_absent :
    (s : State) (name : String) → find_worm s.worms name ≡ none → legal_moves s name ≡ []
unfolding legal_moves
legal_moves_absent s name e = ground arith

-- In a state that keeps the invariant and whose game is not over, LegalMoves lists exactly the
-- directions that Step accepts.
pub legal_iff_step :
    (s : State) (name : String) (d : Direction)
    → WellFormed s
    → s.game_over ≡ false
    → (any (λ x. x == d) (legal_moves s name) ≡ true) ↔ ((e : Event) × ((step s name d).1 ≡ ok e))
legal_iff_step s name d h running = (
  λ listed. elim (Option-cases (find_worm s.worms name)) [
    | inl absent ↦ absurd (ground (arith, legal_moves_absent s name absent))
    | inr (w, found) ↦
        let ok_mask =
          stored_TerritoryOk (board s) s.trails s.territories w.position h.territories_ok in
        step-of_Passes s name d running found (
          open-Passes s w d (omega (arith, ok_mask.shows.0))
            (sym (legal_moves_lem s name d found) ∙ listed))
  ],
  λ done.
      let (i, w, here, named, found, p, result) = step_performs s name d done.1 in
      legal_moves_lem s name d found ∙ Passes-open s w d p,
)
