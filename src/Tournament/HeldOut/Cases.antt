-- ===== src/Tournament/HeldOut/Cases.antt =====
-- The cases of `EvaluateHeldOut` of tournament.go: their matches and their judgement.
use worms_ng.Prelude.{
  List, Option, [], any, count_if, eq_ℤ, false, if◌then◌else◌, insert, leb_ℤ, length, none, pos,
  pos_part, some, str_eq, string_eq, suc, true, zero, ℕ, ℤ, ◌++◌, ◌+◌, ◌∷◌,
}
use worms_ng.Engine.Observe.{tied, winners}
use worms_ng.Match.{Match, Outcome, Reply, World, done, fails, stop}
use worms_ng.Match.Rounds.{Played, advance, resolve}
use worms_ng.Match.Setup.{Setup, new_match, ready, stops}
use worms_ng.Tournament.{MatchReport}
use worms_ng.Tournament.HeldOut.{
  Evaluation, Examiner, HeldOutCase, HeldOutFault, case_config, changed_rules, match_refused,
  resolve_refused, stop_refused, trained_seed, verify_frozen,
}
use worms_ng.Tournament.Play.{count_outcome, count_turn, is_move, score_table, shows_pending}
use worms_ng.Tournament.Run.{add_wins}

-- How the turns of a case end.
pub data CaseEnd (S : Type 0) : Type 0 where
  case_over : Match S → MatchReport → CaseEnd S
  case_broken : HeldOutFault → CaseEnd S

-- A case that has no error is followed by the next.
unfoldable pub unless_fault :
    (Evaluation → Evaluation × Option HeldOutFault)
    → Evaluation × Option HeldOutFault
    → Evaluation × Option HeldOutFault
unless_fault k (out, none) = k out
unless_fault k (out, some fault) = (out, some fault)

module _ {S : Type 0} where
  unfoldable pub case_stopped : MatchReport → Match S × Reply Unit → CaseEnd S
  case_stopped r (m, done _) = case_over m (record r { status = "stopped" })
  case_stopped r (m, fails fault) = case_broken (stop_refused fault)

  unfoldable pub case_resolved :
      (Match S → MatchReport → CaseEnd S) → MatchReport → Match S × Reply Outcome → CaseEnd S
  case_resolved k r (m, done outcome) = k m r
  case_resolved k r (m, fails fault) = case_broken (resolve_refused fault)

  unfoldable pub case_advanced :
      World S
      → (Match S → MatchReport → CaseEnd S)
      → MatchReport
      → Match S × Reply Played
      → CaseEnd S
  case_advanced e k r (m, fails fault) =
      let pending = case_resolved k r (resolve e m) in
      if shows_pending fault
      then pending
      else case_stopped (record r { errors = r.errors + 1 }) (stop e m)
  case_advanced e k r (m, done played) =
      let r' = count_outcome played.outcome r in
      elim played.asked [ none ↦ k m r' | some _ ↦ case_resolved k r' (resolve e m) ]

  -- The loop over the turns, of which `left` are left.
  unfoldable pub case_turns : World S → ℕ → Match S → MatchReport → CaseEnd S
  case_turns e zero m r = if m.state.game_over then case_over m r else case_stopped r (stop e m)
  case_turns e (suc left) m r =
      if m.state.game_over
      then case_over m r
      else case_advanced e (case_turns e left) (count_turn r) (advance e m)

  -- The report of a case, before its match.
  abbrev pub case_report : ℕ → HeldOutCase S → MatchReport
  case_report i c = record {
    id = "";
    game_id = "";
    round = i;
    seed = c.seed;
    colors = [];
    scores = [];
    winners = [];
    tie = false;
    status = "finished";
    turns = 0;
    move_count = 0;
    timeouts = 0;
    errors = 0;
    resigns = 0;
    brain_version_ids = [];
    event_end = 0;
    replay_link = "";
  }

  abbrev pub case_limit : HeldOutCase S → ℕ
  case_limit c = if leb_ℤ c.max_turns (pos 0) then 64 else pos_part c.max_turns

  -- The report of a match that is over, in the evaluation.
  unfoldable pub add_result : Evaluation → Match S → MatchReport → Evaluation
  add_result out m r =
      let names = winners m.state in
      let r' = record r {
        winners = names;
        tie = tied m.state;
        scores = score_table m.state.worms r.scores;
        move_count = count_if is_move m.state.events;
      } in
      record out {
        results = out.results ++ r' ∷ [];
        wins = add_wins names out.wins;
        ties = if tied m.state then out.ties + 1 else out.ties;
        completed = out.completed + 1;
      }

  -- What follows the turns of a case.
  unfoldable pub judge_case :
      Examiner S → HeldOutCase S → Evaluation → CaseEnd S → Evaluation × Option HeldOutFault
  judge_case x c out (case_broken fault) = (out, some fault)
  judge_case x c out (case_over m r) =
      let before = x.rules_hash c.state in
      let out' = record out { rule_hashes = insert c.name before out.rule_hashes } in
      if str_eq before (x.rules_hash m.state)
      then (add_result out' m r, none)
      else (record out' { passed = false }, some changed_rules)

  unfoldable pub play_case :
      Examiner S
      → ℕ
      → HeldOutCase S
      → Evaluation
      → Setup (Match S)
      → Evaluation × Option HeldOutFault
  play_case x i c out (stops fault) = (out, some (match_refused fault))
  play_case x i c out (ready m) =
      judge_case x c out (case_turns x.office.world (case_limit c) m (case_report i c))

  -- One round of the loop over the cases; `training` are the seeds of the training of all.
  unfoldable pub evaluate_case :
      Examiner S → List ℤ → ℕ → HeldOutCase S → Evaluation → Evaluation × Option HeldOutFault
  evaluate_case x training i c out =
      if any (eq_ℤ c.seed) training
      then (record out { passed = false }, some trained_seed)
      else elim (verify_frozen x c (x.rules_hash c.state)) [
        | some fault ↦ (record out { passed = false }, some fault)
        | none ↦ play_case x i c out (new_match x.office.world x.office.archive (case_config x c))
      ]

  unfoldable pub evaluate_cases :
      Examiner S → List ℤ → ℕ → List (HeldOutCase S) → Evaluation → Evaluation × Option HeldOutFault
  evaluate_cases x training i [] out = (out, none)
  evaluate_cases x training i (c ∷ cs) out =
      unless_fault (evaluate_cases x training (suc i) cs) (evaluate_case x training i c out)

  unfoldable pub training_of : List (HeldOutCase S) → List ℤ
  training_of [] = []
  training_of (c ∷ cs) = c.training_seeds ++ training_of cs

  -- `EvaluateHeldOut`
  unfoldable pub evaluate_held_out :
      Examiner S → List (HeldOutCase S) → Evaluation × Option HeldOutFault
  evaluate_held_out x cases = evaluate_cases x (training_of cases) 0 cases (record {
    cases = length cases;
    passed = true;
    rule_hashes = [];
    results = [];
    wins = [];
    ties = 0;
    completed = 0;
  })
