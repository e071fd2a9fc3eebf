-- ===== src/Match/Adapters/Tests.antt =====
-- The theorems on adapters.go at a script of two moves.
use worms_ng.Prelude.{[], arith, false, is_blank, none, pos, refl, some, ℕ, ◌↔◌, ◌∷◌, ◌≡◌}
use worms_ng.Match.Adapters.{RandomController, new_script_unchecked, random_choose}
use worms_ng.Match.Adapters.Restore.{Rehearsal, restore_request, restore_script}
use worms_ng.Match.Adapters.Scripts.{
  AllValid, ChoosesLegal, Repeats, Succeeds, random_choose-ChoosesLegal, restore_script_iff,
}
use worms_ng.Protocol.{
  Action, action_move, check_actions, check_neighbors, check_position, check_trail_states,
  contains_position, missing_from, validate_action, validate_bounds, validate_observation,
  validate_request,
}

abbrev rehearsal : Rehearsal
rehearsal = record { deadline = 1; name = λ i. "restore:0" }

rehearsal-named : (i : ℕ) → is_blank (rehearsal.name i) ≡ false
unfolding is_blank
rehearsal-named i = refl

abbrev east : Action
east = record { kind = action_move; direction = pos 0 }

abbrev west : Action
west = record { kind = action_move; direction = pos 3 }

both_moves_valid : AllValid (east ∷ west ∷ [])
unfolding validate_action
both_moves_valid = (refl, (refl, tt))

-- After two calls the script of two different moves cannot be restored.
restore_script_iff_example :
    Succeeds (
      restore_script rehearsal
        (some (pos 2))
        (record (new_script_unchecked (east ∷ west ∷ [])) { calls = 0 }))
    ↔ Repeats east 2 (east ∷ west ∷ [])
restore_script_iff_example =
    restore_script_iff rehearsal rehearsal-named (λ e. omega arith) east (west ∷ [])
      both_moves_valid 2 0

two_moves_lost :
    ¬ Succeeds (restore_script rehearsal (some (pos 2)) (new_script_unchecked (east ∷ west ∷ [])))
two_moves_lost s =
    let agrees =
      restore_script_iff rehearsal rehearsal-named (λ e. omega arith) east (west ∷ [])
        both_moves_valid 2 0 in
    let same = (agrees.0 s).1 in cc

abbrev dice : RandomController
dice = record { seed = pos 7; calls = 0 }

asked_request-valid : validate_request (restore_request 1 "restore:0" (east ∷ west ∷ [])) ≡ none
unfolding validate_request validate_observation check_actions check_neighbors check_position
    check_trail_states validate_bounds contains_position missing_from validate_action is_blank
asked_request-valid = refl

random_choose-ChoosesLegal_example :
    ChoosesLegal dice (restore_request 1 "restore:0" (east ∷ west ∷ [])) (
      random_choose
        (λ seed id. 5)
        (λ fault. "refused")
        dice
        (restore_request 1 "restore:0" (east ∷ west ∷ [])))
random_choose-ChoosesLegal_example =
    random_choose-ChoosesLegal (λ seed id. 5) (λ fault. "refused") dice
      (restore_request 1 "restore:0" (east ∷ west ∷ [])) asked_request-valid
