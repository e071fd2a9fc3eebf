-- ===== src/Engine/Setup/Fresh.antt =====
-- A new classic game keeps the invariant.
use worms_ng.Prelude.{
  Bool-cases, List, [], arith, if_elim, inl, inr, insert, lookup, lookup-insert, ltb_ℤ, none,
  option_elim, pos, refl, some, subst, sym, ℤ, ◌<ℤ◌, ◌||◌, ◌∙◌, ◌∷◌, ◌≡◌,
}
use worms_ng.Engine.Board.{points}
use worms_ng.Engine.Masks.Laws.{Shows-zero}
use worms_ng.Engine.Moves.WellFormed.{TerritoriesOk, WellFormed}
use worms_ng.Engine.Setup.{
  Checked, accepted, add_territories, blank_territory, checked, new_bounded, new_classic,
  new_classic_validated, new_state, new_validated, refused, validate, validate_worms,
}
use worms_ng.Engine.Setup.Valid.{validate-WellFormed}
use worms_ng.Engine.Types.{
  Board, Point, RulesMode, State, Territories, Territory, Topology, Worm, board, bounded,
  classic_rules, edge_key, modern_rules, point_eq, point_key, toroidal,
}

-- The territories that `newState` stores have no spokes and no owner.
abbrev Unclaimed : Territories → Type 0
Unclaimed m = (p : Point) (t : Territory) → lookup p m ≡ some t → (t.mask ≡ 0) × (t.owner ≡ "")

add_territories-Unclaimed :
    (ps : List Point) (m : Territories) → Unclaimed m → Unclaimed (add_territories ps m)
unfolding add_territories
add_territories-Unclaimed [] m h = h
add_territories-Unclaimed (p ∷ ps) m h =
    add_territories-Unclaimed ps (insert p (blank_territory p) m) (λ x t found.
      elim (Bool-cases (point_eq p x)) [
        | inl same ↦
            let at : some (blank_territory p) ≡ some t =
              sym (lookup-insert x p (blank_territory p) m ∙ rw same refl) ∙ found in
            (ground arith, ground arith)
        | inr other ↦ h x t (sym (lookup-insert x p (blank_territory p) m ∙ rw other refl) ∙ found)
      ])

Unclaimed-TerritoriesOk : (b : Board) (m : Territories) → Unclaimed m → TerritoriesOk b [] m
Unclaimed-TerritoriesOk b m h p t found =
    let (bare, free) = h p t found in
    record {
      shows = rw bare (Shows-zero b [] p);
      full_owned = λ full. absurd (omega (arith, bare, full));
      owned_full = λ owned. absurd (owned free);
    }

pub new_state-TerritoriesOk :
    (width height : ℤ) (topology : Topology) (mode : RulesMode) (worms : List Worm)
    → let s = new_state width height topology mode worms in TerritoriesOk (board s) [] s.territories
unfolding new_state
new_state-TerritoriesOk width height topology mode worms =
    let s = new_state width height topology mode worms in
    Unclaimed-TerritoriesOk (board s) s.territories
      (add_territories-Unclaimed (points (board s)) [] (λ p t found. absurd (ground arith)))

-- What holds of a state that a constructor returns.
abbrev pub Sound : Checked → Type 0
Sound (accepted s) = WellFormed s
Sound (refused fault) = Unit

pub checked-Sound : (s : State) → (validate s ≡ none → WellFormed s) → Sound (checked s)
checked-Sound s h = option_elim Sound (validate s) h (λ fault e. tt)

-- A new state that `Validate` accepts keeps the invariant, if it is at least two wide and two high.
new_state-WellFormed :
    (width height : ℤ) (topology : Topology) (mode : RulesMode) (worms : List Worm)
    → pos 1 <ℤ width
    → pos 1 <ℤ height
    → validate (new_state width height topology mode worms) ≡ none
    → WellFormed (new_state width height topology mode worms)
unfolding new_state
new_state-WellFormed width height topology mode worms wide high fine =
    validate-WellFormed (new_state width height topology mode worms) fine (ground arith)
      (ground arith) (new_state-TerritoriesOk width height topology mode worms)

pub new_classic_validated-Sound : (worms : List Worm) → Sound (new_classic_validated worms)
unfolding new_classic_validated new_classic
new_classic_validated-Sound worms =
    option_elim Sound (validate_worms worms)
      (λ named. checked-Sound (new_classic worms) (
        new_state-WellFormed (pos 18) (pos 18) toroidal classic_rules worms (omega arith)
          (omega arith)))
      (λ fault e. tt)

new_validated-Sound :
    (width height : ℤ) (worms : List Worm)
    → pos 1 <ℤ width
    → pos 1 <ℤ height
    → Sound (new_validated width height worms)
unfolding new_validated new_bounded
new_validated-Sound width height worms wide high =
    if_elim Sound (ltb_ℤ width (pos 1) || ltb_ℤ height (pos 1)) (λ e. tt)
      (λ e.
        option_elim Sound (validate_worms worms)
          (λ named.
            checked-Sound (new_bounded width height worms)
              (new_state-WellFormed width height bounded modern_rules worms wide high))
          (λ fault e. tt))

-- A state that NewValidated returns for a board at least two wide and two high keeps the
-- invariant.
pub new_validated-WellFormed :
    (width height : ℤ) (worms : List Worm) (s : State)
    → pos 1 <ℤ width
    → pos 1 <ℤ height
    → new_validated width height worms ≡ accepted s
    → WellFormed s
new_validated-WellFormed width height worms s wide high h =
    subst Sound h (new_validated-Sound width height worms wide high)
