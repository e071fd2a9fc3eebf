-- ===== src/Engine/Generate/Laws.antt =====
-- The boards that `GenerateBoard` returns.
use worms_ng.Prelude.{
  List, arith, eq_ℤ, false, if_elim, if◌then◌else◌, length, ltb_ℤ, not, option_elim, pos, pos_part,
  subst, ℕ, ℤ, ◌&&◌, ◌<ℤ◌, ◌||◌, ◌≡◌,
}
use worms_ng.Engine.Board.{points}
use worms_ng.Engine.Generate.{BoardConfig, draw_starts, fresh_worms, generate_board}
use worms_ng.Engine.Moves.WellFormed.{WellFormed}
use worms_ng.Engine.Setup.{accepted, checked, new_bounded, new_state, validate_worms}
use worms_ng.Engine.Setup.Fresh.{
  Sound, checked-Sound, new_classic_validated-Sound, new_state-TerritoriesOk,
}
use worms_ng.Engine.Setup.Valid.{validate-WellFormed}
use worms_ng.Engine.Types.{State, Worm, board, bounded, is_classic, modern_rules}

drawn-Sound :
    (width height : ℤ) (worms : List Worm) (seed : ℕ)
    → pos 1 <ℤ width
    → pos 1 <ℤ height
    → Sound (checked (draw_starts (new_bounded width height worms) seed))
unfolding draw_starts new_bounded new_state
drawn-Sound width height worms seed wide high =
    let s = new_bounded width height worms in
    checked-Sound (draw_starts s seed) (λ fine.
      validate-WellFormed (draw_starts s seed) fine (ground arith) (ground arith)
        (new_state-TerritoriesOk width height bounded modern_rules worms))

generate_board-Sound :
    (c : BoardConfig)
    → (is_classic c.mode ≡ false → (pos 1 <ℤ c.width) × (pos 1 <ℤ c.height))
    → Sound (generate_board c)
unfolding generate_board
generate_board-Sound c size =
    let width = if is_classic c.mode && eq_ℤ c.width (pos 0) then pos 18 else c.width in
    let height = if is_classic c.mode && eq_ℤ c.height (pos 0) then pos 18 else c.height in
    let worms = fresh_worms (pos_part c.participants) 0 in
    let s = new_bounded width height worms in
    if_elim Sound (ltb_ℤ c.participants (pos 1) || ltb_ℤ (pos 4) c.participants) (λ e. tt)
      (λ e.
        if_elim Sound
          (is_classic c.mode && (not (eq_ℤ width (pos 18)) || not (eq_ℤ height (pos 18)))) (λ e. tt)
          (λ e.
            if_elim Sound (not (is_classic c.mode) && (ltb_ℤ width (pos 1) || ltb_ℤ height (pos 1)))
              (λ e. tt)
              (λ e.
                if_elim Sound (is_classic c.mode) (λ e. new_classic_validated-Sound worms)
                  (λ modern.
                    option_elim Sound (validate_worms worms)
                      (λ named.
                        if_elim Sound (ltb_ℤ (pos (length (points (board s)))) c.participants)
                          (λ e. tt)
                          (λ e.
                            let (wide, high) = size modern in
                            drawn-Sound width height worms c.seed (rw modern wide)
                              (rw modern high)))
                      (λ fault e. tt)))))

-- A board that GenerateBoard returns keeps the invariant, if a modern one is at least two wide and
-- two high.
pub generate_board-WellFormed :
    (c : BoardConfig) (s : State)
    → (is_classic c.mode ≡ false → (pos 1 <ℤ c.width) × (pos 1 <ℤ c.height))
    → generate_board c ≡ accepted s
    → WellFormed s
generate_board-WellFormed c s size h = subst Sound h (generate_board-Sound c size)
