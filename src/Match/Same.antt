-- ===== src/Match/Same.antt =====
-- The SAME controller of match.go: a slot that repeats what was played before it.
use worms_ng.Prelude.{
  Bool, List, Option, [], bit_and, eq_ℤ, false, if◌then◌else◌, leb_ℤ, none, not, pos, pos_part,
  some, true, ℕ, ℤ, ◌&&◌, ◌∷◌,
}
use worms_ng.Engine.Masks.{raw_mask}
use worms_ng.Engine.Moves.{legal_moves}
use worms_ng.Engine.Rules.{exits}
use worms_ng.Engine.Types.{
  ControllerKind, Direction, State, Worm, action_die, action_do_ai, controller_same, directions,
  to_action, valid_direction,
}
use worms_ng.Prelude.Bits.{has_bit}

-- `actionForSlotLocked`
unfoldable pub action_for_slot : State → Worm → ℤ
action_for_slot s w =
    let a = w.rules (bit_and (raw_mask s w.position) 63) in
    if not w.alive
    then action_die
    else if eq_ℤ a action_do_ai
    then elim (legal_moves s w.id) [ [] ↦ action_die | d ∷ ds ↦ to_action d ]
    else a

-- The loop over the slots before `i`, which are given from the nearest on: the action of the
-- nearest live one, if it is a direction.
unfoldable pub nearest_action : State → List Worm → Option Direction
nearest_action s [] = none
nearest_action s (w ∷ ws) =
    let rest = nearest_action s ws in
    let a = action_for_slot s w in
    if not w.alive
    then rest
    else if leb_ℤ (pos 0) a && leb_ℤ a (pos 5)
    then some (pos_part a)
    else none

-- The action of a mask in the table that repeats the direction `d`.
unfoldable pub repeated_rule : Direction → ℕ → ℤ
repeated_rule d mask =
    if not (has_bit mask d)
    then to_action d
    else elim (exits mask directions) [ [] ↦ action_die | e ∷ es ↦ to_action e ]

abbrev pub is_same : ControllerKind → Bool
is_same controller_same = true
is_same k = false

-- `prepareSameLocked`, for the slots `ws` behind `before`, which stand nearest first. A slot sees
-- the tables that the slots before it have been given.
unfoldable pub prepare_worms : Option Direction → State → List Worm → List Worm → List Worm
prepare_worms last s before [] = []
prepare_worms last s before (w ∷ ws) =
    let source : Option Direction = elim (nearest_action s before) [
      | none ↦ last
      | some d ↦ some d
    ] in
    let taught : Worm = elim source [ none ↦ w | some d ↦ record w { rules = repeated_rule d } ] in
    let w' = if is_same w.controller && w.alive then taught else w in
    w' ∷ prepare_worms last s (w' ∷ before) ws

unfoldable pub prepare_same : Option Direction → State → State
prepare_same last s = record s { worms = prepare_worms last s [] s.worms }

-- The previous direction of the nearest slot that has one.
unfoldable pub nearest_previous : List Worm → Option Direction
nearest_previous [] = none
nearest_previous (w ∷ ws) =
    let rest = nearest_previous ws in if valid_direction w.previous then some w.previous else rest

-- `applySamePreviousLocked`
unfoldable pub apply_worms : List Worm → List Worm → List Worm
apply_worms before [] = []
apply_worms before (w ∷ ws) =
    let moved : Worm = elim (nearest_previous before) [
      | none ↦ w
      | some d ↦ record w { previous = d }
    ] in
    let w' = if is_same w.controller && w.alive then moved else w in
    w' ∷ apply_worms (w' ∷ before) ws

unfoldable pub apply_same_previous : State → State
apply_same_previous s = record s { worms = apply_worms [] s.worms }
