-- ===== src/Tournament/Tests.antt =====
-- The theorems on tournament.go at a tournament of two random players that no store keeps.
use worms_ng.Prelude.{
  All, Dict, String, [], arith, false, get_elem?, if◌then◌else◌, is_blank, is_odd, length, none,
  pos, refl, some, suc, true, zero, ℕ, ℤ, ◌+ℤ◌, ◌+◌, ◌<◌, ◌==◌, ◌∷◌, ◌≡◌, ◌≢◌,
}
use worms_ng.Engine.Board.{in_bounds}
use worms_ng.Engine.Masks.{colors, reciprocal_ok}
use worms_ng.Engine.Observe.{best_score, names_with, tied, winners}
use worms_ng.Engine.Rules.{
  check_action, check_forced, check_table, force_all, install_forced, rules_empty, validate_rules,
}
use worms_ng.Engine.Sample.{meadow, solo}
use worms_ng.Engine.Setup.{
  check_id, check_owners, check_scores, check_trails, check_worm, check_worms, validate,
}
use worms_ng.Engine.Snapshot.{insert_sorted, sort_by}
use worms_ng.Engine.Types.{State, Worm}
use worms_ng.Match.{Controller, World, broke, picked}
use worms_ng.Match.Resume.{Vault}
use worms_ng.Match.Setup.{
  Archive, enter_game, found, fresh_match, hydrate_same, missing, new_match, validate_config,
}
use worms_ng.Prelude.Bits.{has_bit, sweep}
use worms_ng.Tournament.{MatchReport, Office, Participant, Tournament, TournamentConfig}
use worms_ng.Tournament.HeldOut.{
  Evaluation, Examiner, HeldOutCase, fill_controllers, same_rules, verify_frozen, verify_version,
  verify_versions,
}
use worms_ng.Tournament.HeldOut.Cases.{
  add_result, case_report, case_turns, evaluate_case, evaluate_cases, evaluate_held_out, judge_case,
  play_case, training_of, unless_fault,
}
use worms_ng.Tournament.HeldOut.Passes.{IsHeld, evaluate_held_out-IsHeld}
use worms_ng.Tournament.Play.{play_turns, score_table}
use worms_ng.Tournament.Play.Ends.{Ends, play_turns-Ends}
use worms_ng.Tournament.Run.{
  add_report, add_reports, add_wins, report_less, report_of, run_tournament,
}
use worms_ng.Tournament.Run.Rounds.{Reports, Yields, run_tournament-Reports}
use worms_ng.Tournament.Run.Totals.{IsTally, report_of-IsTally}
use worms_ng.Tournament.Seats.{round_config, seat_worms}
use worms_ng.Tournament.Seats.Colors.{AllDifferent, seats, seats_rotate}

abbrev quiet_world : World ℕ
quiet_world = record {
  write = λ m events o status. none;
  numbered = λ name i. name;
  number = λ i. "1";
  mask_text = λ m. "000000";
  kind_text = λ k. "AUTO";
}

abbrev bare_archive : Archive ℕ
bare_archive = record {
  game = λ id. missing;
  finished_games = found [];
  version = λ id. missing;
  create = λ m. found m.game_id;
  local_name = λ s seed. "local";
}

abbrev bare_vault : Vault ℕ
bare_vault = record {
  head = λ id. missing;
  chain_fault = λ id. none;
  snapshot = λ id. missing;
  events = λ id n. found [];
  hash_bytes = λ payload. payload;
  hash_event = λ n prev kind payload. payload;
  read_snapshot = λ payload. none;
  read_transition = λ payload. none;
  digest = λ x. "s";
  hash_state = λ s. "s";
  accepts = λ controllers memories. true;
}

-- A controller that takes the first legal action.
abbrev first_choice : ℤ → Controller ℕ
first_choice seed = record {
  name = some "random";
  provenance = none;
  stateful = true;
  decide = λ n r. elim r.observation.legal_actions [
    | [] ↦ (n, broke false "no legal actions")
    | a ∷ rest ↦ (n + 1, picked a)
  ];
}

abbrev club : Office ℕ
club = record {
  world = quiet_world;
  archive = bare_archive;
  vault = bare_vault;
  rows = λ id. found [];
  create_tournament = λ c. found "cup";
  known = λ id. none;
  create_row = λ r. found "row";
  save = λ r. none;
  close = λ r. none;
  sequence = λ m. none;
  color_name = λ i. if i == 0 then "red" else "blue";
  game_name = λ id round. "game";
  digest = λ seed round. round ∷ [];
  random = first_choice;
  memory = λ i. 0;
}

abbrev player : String → Participant ℕ
player id = record { id = id; name = id; brain_version_id = ""; controller = none; color = "" }

-- Two worms side by side.
abbrev pair : State
pair = record meadow {
  worms = solo ∷ record solo { id = "b"; position = record { q = pos 2; r = pos 2 } } ∷ [];
}

-- Two rounds of a turn each.
abbrev cup : TournamentConfig ℕ
cup = record {
  has_store = false;
  id = "cup";
  name = "cup";
  state = pair;
  participants = player "x" ∷ player "y" ∷ [];
  rounds = pos 2;
  seed = pos 1;
  deadline = pos 0;
  clock = λ n. n + 1;
  max_turns = pos 1;
}

abbrev cup_tournament : Tournament ℕ
cup_tournament = record { config = cup; id = "cup" }

-- The report of a round of the cup.
abbrev capped_round : ℕ → Dict String String → MatchReport
capped_round round colors = record {
  id = "";
  game_id = "game";
  round = round;
  seed = pos round;
  colors = colors;
  scores = ("x", pos 0) ∷ ("y", pos 0) ∷ [];
  winners = [];
  tie = false;
  status = "stopped";
  turns = 1;
  move_count = 2;
  timeouts = 0;
  errors = 0;
  resigns = 0;
  brain_version_ids = [];
  event_end = 0;
  replay_link = "game";
}

-- A finished round that "x" has won.
abbrev won_round : MatchReport
won_round = record (capped_round 1 []) { status = "finished"; winners = "x" ∷ []; timeouts = 2 }

run_tournament-Reports_example : Yields (Reports club cup) (run_tournament club cup)
run_tournament-Reports_example = run_tournament-Reports club cup (λ id. refl)

play_turns-Ends_example : Ends 1 (capped_round 0 []) (
    play_turns club cup_tournament 2
      (fresh_match (round_config club cup_tournament 0 "game"))
      (capped_round 0 []))
play_turns-Ends_example =
    play_turns-Ends club cup_tournament (fresh_match (round_config club cup_tournament 0 "game"))
      (capped_round 0 []) (omega arith)

report_of-IsTally_example :
    IsTally
      (report_of cup_tournament (won_round ∷ capped_round 0 [] ∷ []))
      (won_round ∷ capped_round 0 [] ∷ [])
report_of-IsTally_example = report_of-IsTally cup_tournament (won_round ∷ capped_round 0 [] ∷ [])

-- The sums of the two rounds.
report_sums :
    let report = report_of cup_tournament (won_round ∷ capped_round 0 [] ∷ []) in
    (report.completed ≡ 1) × (report.timeouts ≡ 2) × (report.wins ≡ ("x", 1) ∷ [])
unfolding report_of sort_by insert_sorted report_less add_report add_reports add_wins
report_sums = (refl, refl, refl)

two_colors : AllDifferent ("red" ∷ "blue" ∷ [])
two_colors zero zero a g g' = refl
two_colors zero (suc zero) a g g' = cc
two_colors zero (suc (suc j)) a g g' = cc
two_colors (suc zero) zero a g g' = cc
two_colors (suc zero) (suc zero) a g g' = refl
two_colors (suc zero) (suc (suc j)) a g g' = cc
two_colors (suc (suc i)) j a g g' = cc

abbrev x_seat : Worm
x_seat = record solo { id = "x" }

abbrev y_seat : Worm
y_seat = record solo { id = "y"; color = "blue"; position = record { q = pos 2; r = pos 2 } }

-- The players change their colours in the second round.
seats_rotate_example :
    (x_seat.color ≢ y_seat.color)
    × ((turn : ℕ) × (turn < 2)
        × ((u : Worm) × (get_elem?
                (seats ("red" ∷ "blue" ∷ []) cup.participants pair.worms refl turn)
                0
              ≡ some u)
            × (u.color ≡ "blue")))
unfolding seat_worms
seats_rotate_example =
    seats_rotate ("red" ∷ "blue" ∷ []) cup.participants pair.worms refl 0 0 1 1 {v = x_seat}
      {w = y_seat} two_colors refl refl (λ e. omega arith) (omega arith)

abbrev examiner : Examiner ℕ
examiner = record {
  office = club;
  version = λ id. some (record { brain_id = "b"; rules = some solo.rules; rules_hash = "" });
  frozen = λ id. some true;
  rules_hash = λ s. "table";
  clock = λ n. n + 1;
}

-- A case on a game that is over, for a frozen version, with a seed that was not trained on.
abbrev old_game : HeldOutCase ℕ
old_game = record {
  name = "old";
  has_store = true;
  state = record meadow { worms = record solo { frozen = true } ∷ []; game_over = true };
  controllers = [];
  seed = pos 7;
  training_seeds = pos 9 ∷ [];
  brain_version_id = "";
  brain_version_ids = "b:1" ∷ [];
  deadline = pos 0;
  max_turns = pos 4;
}

abbrev good_evaluation : Evaluation
good_evaluation = record {
  cases = 1;
  passed = true;
  rule_hashes = ("old", "table") ∷ [];
  results = record (case_report 0 old_game) { winners = "a" ∷ []; scores = ("a", pos 0) ∷ [] } ∷ [];
  wins = ("a", 1) ∷ [];
  ties = 0;
  completed = 1;
}

old_game_passes : evaluate_held_out examiner (old_game ∷ []) ≡ (good_evaluation, none)
unfolding evaluate_held_out evaluate_cases evaluate_case unless_fault play_case judge_case
    case_turns add_result verify_frozen verify_versions verify_version same_rules sweep
    fill_controllers training_of score_table add_wins winners tied best_score names_with new_match
    validate_config fresh_match hydrate_same enter_game validate check_worms check_trails
    check_owners check_scores reciprocal_ok is_odd check_worm check_id in_bounds ◌+ℤ◌ rules_empty
    validate_rules check_table check_action check_forced install_forced force_all has_bit is_blank
old_game_passes = refl

evaluate_held_out-IsHeld_example :
    All (IsHeld examiner (old_game ∷ [])) (old_game ∷ [])
    × (good_evaluation.passed ≡ true)
    × (good_evaluation.completed ≡ 1)
    × (length good_evaluation.results ≡ 1)
evaluate_held_out-IsHeld_example = evaluate_held_out-IsHeld examiner (old_game ∷ []) old_game_passes
