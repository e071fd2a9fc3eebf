-- ===== src/Engine/Tests.antt =====
-- A small board, and the theorems of the engine at work on it.
use worms_ng.Prelude.{
  List, [], any, arith, contains, false, get_elem?, is_blank, is_odd, negsuc, none, pos, refl, rem,
  some, str_eq, subst, sym, true, ℕ, ◌+ℤ◌, ◌-ℤ◌, ◌-◌, ◌<◌, ◌==◌, ◌^◌, ◌↔◌, ◌∷◌, ◌≡◌, ◌≤ℤ◌,
}
use worms_ng.Engine.Auto.{AutoScore, better, choose_auto, collisions, score_move}
use worms_ng.Engine.Auto.Best.{choose_auto_best}
use worms_ng.Engine.Board.{
  classic_dq, classic_dr, edge_at, in_bounds, neighbor, points, wrap, wrap_coord,
}
use worms_ng.Engine.Board.Torus.{neighbor-opposite}
use worms_ng.Engine.Generate.{
  BoardConfig, draw_starts, fresh_worms, generate_board, place_worms, shuffle, swap,
}
use worms_ng.Engine.Generate.Laws.{generate_board-WellFormed}
use worms_ng.Engine.Masks.{find_worm, has_trail, mask_of, reciprocal_ok, trail_mask, worm_index}
use worms_ng.Engine.Moves.{
  claim_trail, emit, is_open, legal_moves, open_moves, perform, recolor_capture, relocate, settle,
  stamp, step, step_refusal, travel,
}
use worms_ng.Engine.Moves.Effect.{Moved, step_moves}
use worms_ng.Engine.Moves.Owners.{IsClosed, OwnersExact, step-OwnersExact}
use worms_ng.Engine.Moves.StepLaws.{legal_iff_step}
use worms_ng.Engine.Moves.Torus.{torus_step}
use worms_ng.Engine.Moves.WellFormed.{WellFormed}
use worms_ng.Engine.Observe.{winners}
use worms_ng.Engine.Observe.Laws.{winners_iff}
use worms_ng.Engine.Rules.{
  check_action, check_forced, check_table, configure_worm, fill_wild, force_all, install_forced,
  rules_empty, validate_rules, xorshift,
}
use worms_ng.Engine.Rules.Setup.{configure_worm-writes, fill_wild-valid}
use worms_ng.Engine.Rules.Valid.{
  IsEntry, normalize_rules-of_valid, normalize_rules-valid, validate_rules_iff,
}
use worms_ng.Engine.Sample.{
  corner, corner-Inside, meadow, meadow-IsSound, meadow-WellFormed, meadow-valid, solo, solo-slot,
}
use worms_ng.Engine.Setup.{
  accepted, add_territories, check_id, check_names, check_owners, check_scores, check_trails,
  check_worm, check_worms, fill_worm, new_bounded, new_state, validate, validate_worms,
}
use worms_ng.Engine.Setup.Valid.{validate-WellFormed}
use worms_ng.Engine.Turns.{advance_round}
use worms_ng.Engine.Turns.Invariant.{advance_round-WellFormed}
use worms_ng.Engine.Turns.Success.{advance_round_succeeds}
use worms_ng.Engine.Types.{
  Action, Event, State, Worm, board, controller_wild, edge_key, modern_rules, new_edge, no_move, ok,
  opposite, point_key, point_less,
}
use worms_ng.Prelude.Bits.{gather, has_bit}

abbrev wild_table : ℕ → Action
wild_table = install_forced (fill_wild (λ m. pos 0) 7)

-- The state after a move east.
abbrev grazed : State
grazed = (step meadow "a" 0).0

grazing : (e : Event) × ((step meadow "a" 0).1 ≡ ok e)
unfolding has_bit mask_of trail_mask gather has_trail
grazing = torus_step meadow 0 0 meadow-WellFormed refl refl refl refl refl (omega arith) refl

-- No point of the meadow is closed or owned before the first move.
meadow-OwnersExact : OwnersExact meadow
unfolding OwnersExact IsClosed
meadow-OwnersExact p = (λ owned. absurd (owned refl), λ taken. let e = taken 0 (omega arith) in cc)

step-OwnersExact_example : WellFormed grazed × OwnersExact grazed
step-OwnersExact_example = step-OwnersExact meadow "a" 0 meadow-WellFormed meadow-OwnersExact

advance_round-WellFormed_example : WellFormed (advance_round meadow).0
advance_round-WellFormed_example = advance_round-WellFormed meadow meadow-WellFormed

step_moves_example :
    (i : ℕ) × (w : Worm) × (find_worm meadow.worms "a" ≡ some w)
    × (get_elem? meadow.worms i ≡ some w)
    × (contains (edge_at (board meadow) w.position 0) meadow.trails ≡ false)
    × Moved meadow grazed i w "a" 0
step_moves_example = step_moves meadow "a" 0 grazing.1

legal_iff_step_example :
    (any (λ x. x == 0) (legal_moves meadow "a") ≡ true)
    ↔ ((e : Event) × ((step meadow "a" 0).1 ≡ ok e))
legal_iff_step_example = legal_iff_step meadow "a" 0 meadow-WellFormed refl

neighbor-opposite_example :
    neighbor (board meadow) (neighbor (board meadow) corner 4) (opposite 4) ≡ corner
neighbor-opposite_example =
    neighbor-opposite (board meadow) corner 4 meadow-IsSound corner-Inside (omega arith)

torus_step_example : (e : Event) × ((step meadow "a" 3).1 ≡ ok e)
unfolding has_bit mask_of trail_mask gather has_trail
torus_step_example =
    torus_step meadow 0 3 meadow-WellFormed refl refl refl refl refl (omega arith) refl

validate_rules_iff_example :
    (validate_rules wild_table ≡ none)
    ↔ ((m : ℕ) → m < 64 → IsEntry m (wild_table m))
      × ((d : ℕ) → d < 6 → wild_table (63 - 2 ^ d) ≡ pos d)
      × (wild_table 63 ≡ negsuc 2)
validate_rules_iff_example = validate_rules_iff wild_table

normalize_rules-valid_example : validate_rules wild_table ≡ none
normalize_rules-valid_example =
    normalize_rules-valid wild_table
      (normalize_rules-of_valid wild_table (fill_wild-valid (λ m. pos 0) 7))

configure_worm-writes_example :
    let (w, e) = configure_worm solo controller_wild 7 in
    (e ≡ none)
    × (w.alive ≡ true)
    × (w.controller ≡ controller_wild)
    × (w.previous ≡ no_move)
    × (validate_rules w.rules ≡ none)
configure_worm-writes_example = configure_worm-writes solo controller_wild 7 refl

validate-WellFormed_example : WellFormed meadow
validate-WellFormed_example =
    validate-WellFormed meadow meadow-valid (omega arith) (omega arith)
      meadow-WellFormed.territories_ok

abbrev small_config : BoardConfig
small_config = record {
  mode = modern_rules;
  width = pos 2;
  height = pos 2;
  participants = pos 2;
  seed = 3;
}

-- The board of two participants at two by two.
abbrev small_board : State
small_board = draw_starts (new_bounded (pos 2) (pos 2) (fresh_worms 2 0)) 3

small_board-accepted : generate_board small_config ≡ accepted small_board
unfolding generate_board validate_worms check_names fresh_worms points new_bounded new_state
    draw_starts place_worms shuffle swap xorshift fill_worm add_territories rules_empty is_blank
    validate check_worms check_trails check_owners check_scores reciprocal_ok is_odd check_worm
    check_id in_bounds ◌+ℤ◌ validate_rules check_table check_action check_forced
small_board-accepted = refl

generate_board-WellFormed_example : WellFormed small_board
generate_board-WellFormed_example =
    generate_board-WellFormed small_config small_board (λ m. (omega arith, omega arith))
      small_board-accepted

winners_iff_example :
    (any (str_eq "a") (winners meadow) ≡ true)
    ↔ (i : ℕ) × (w : Worm) × (get_elem? meadow.worms i ≡ some w)
      × (w.id ≡ "a")
      × ((j : ℕ) (v : Worm) → get_elem? meadow.worms j ≡ some v → v.score ≤ℤ w.score)
winners_iff_example =
    winners_iff meadow "a"
      (λ i w g. subst (λ (x : Worm). pos 0 ≤ℤ x.score) (sym (solo-slot i g).1) (omega arith))

meadow-tables :
    (i : ℕ) (w : Worm) → get_elem? (solo ∷ []) i ≡ some w → validate_rules w.rules ≡ none
unfolding validate_rules check_table check_action check_forced install_forced force_all has_bit
meadow-tables i w g =
    subst (λ (x : Worm). validate_rules x.rules ≡ none) (sym (solo-slot i g).1) refl

advance_round_succeeds_example : (es : List Event) × ((advance_round meadow).1 ≡ ok es)
advance_round_succeeds_example =
    advance_round_succeeds meadow meadow-WellFormed meadow-tables refl refl refl refl

-- A first move captures nothing, meets nobody and leaves five ways on.
abbrev quiet : AutoScore
quiet = record { capture = pos 0; collision = 0; survival = pos 5 }

quiet_move : score_move meadow 0 solo 0 ≡ some quiet
unfolding score_move step worm_index step_refusal has_bit mask_of trail_mask gather has_trail
    in_bounds neighbor ◌+ℤ◌ rem ◌-ℤ◌ is_odd perform settle travel claim_trail recolor_capture
    relocate emit stamp new_edge point_less opposite classic_dq classic_dr wrap wrap_coord
    collisions legal_moves open_moves find_worm is_open
quiet_move = refl

east_listed : any (λ x. x == 0) (legal_moves meadow "a") ≡ true
east_listed = (legal_iff_step meadow "a" 0 meadow-WellFormed refl).1 grazing

choose_auto_best_example :
    (chosen : AutoScore) × (score_move meadow 0 solo (choose_auto meadow 0 solo) ≡ some chosen)
    × (better quiet chosen ≡ false)
unfolding better
choose_auto_best_example = choose_auto_best meadow 0 solo 0 quiet east_listed quiet_move refl
