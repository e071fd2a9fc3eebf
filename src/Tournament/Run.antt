-- ===== src/Tournament/Run.antt =====
-- `Run` of tournament.go: the rounds, the stored ones skipped, and the report of the tournament.
pub mod Totals
pub mod Rounds
use worms_ng.Prelude.{
  Bool, Dict, List, Option, String, [], any, if◌then◌else◌, insert, lookup, ltb, none, not,
  pos_part, some, str_eq, string_eq, suc, text_less, zero, ℕ, ◌&&◌, ◌++◌, ◌+◌, ◌==◌, ◌||◌, ◌∷◌,
}
use worms_ng.Engine.Moves.WellFormed.{completed}
use worms_ng.Engine.Observe.{winners}
use worms_ng.Engine.Snapshot.{sort_by}
use worms_ng.Tournament.{
  MatchReport, Office, Ran, Report, Row, Tournament, TournamentConfig, bad_report, decode_report,
  halts, new_tournament, ran, ran_found,
}
use worms_ng.Tournament.Play.{run_round}

abbrev pub is_over : String → Bool
is_over status = str_eq status "finished" || str_eq status "stopped"

abbrev pub is_running : String → Bool
is_running status = str_eq status "active" || str_eq status "pending"

-- The reports of the rows that are over.
unfoldable pub stored_reports : List Row → Ran (List MatchReport)
stored_reports [] = ran []
stored_reports (x ∷ rows) =
    let rest = stored_reports rows in
    if not (is_over x.status) then rest else elim (decode_report x.payload) [
      | none ↦ halts (bad_report x.id)
      | some r ↦ elim rest [
        | halts fault ↦ halts fault
        | ran rs ↦ ran (record r { id = x.id; status = x.status } ∷ rs)
      ]
    ]

-- `stored[round]`
abbrev pub is_stored : List Row → ℕ → Bool
is_stored rows round = any (λ x. is_over x.status && x.round == round) rows

-- `active[round]`: the last row of the round that is running.
unfoldable pub active_row : List Row → ℕ → Option Row
active_row [] round = none
active_row (x ∷ rows) round = elim (active_row rows round) [
  | some y ↦ some y
  | none ↦ if is_running x.status && x.round == round then some x else none
]

-- The order of the reports.
unfoldable pub report_less : MatchReport → MatchReport → Bool
report_less x y = if x.round == y.round then text_less x.id y.id else ltb x.round y.round

abbrev pub is_finished : MatchReport → Bool
is_finished r = str_eq r.status "finished"

unfoldable pub add_wins : List String → Dict String ℕ → Dict String ℕ
add_wins [] wins = wins
add_wins (w ∷ ws) wins =
    add_wins ws (insert w (elim (lookup w wins) [ none ↦ 1 | some n ↦ n + 1 ]) wins)

-- One round of the loop over the reports.
unfoldable pub add_report : Report → MatchReport → Report
add_report t r =
    let counted = record t {
      timeouts = t.timeouts + r.timeouts;
      errors = t.errors + r.errors;
      resigns = t.resigns + r.resigns;
    } in
    if is_finished r
    then record counted {
      completed = t.completed + 1;
      wins = add_wins r.winners t.wins;
      ties = if r.tie then t.ties + 1 else t.ties;
    }
    else counted

unfoldable pub add_reports : Report → List MatchReport → Report
add_reports t [] = t
add_reports t (r ∷ rs) = add_reports (add_report t r) rs

module _ {S : Type 0} where
  -- The loop over the rounds, from `round` on.
  unfoldable pub run_rounds : Office S → Tournament S → List Row → ℕ → ℕ → Ran (List MatchReport)
  run_rounds o t rows zero round = ran []
  run_rounds o t rows (suc left) round =
      let rest = run_rounds o t rows left (suc round) in
      if is_stored rows round then rest else elim (run_round o t round (active_row rows round)) [
        | halts fault ↦ halts fault
        | ran r ↦ elim rest [ halts fault ↦ halts fault | ran rs ↦ ran (r ∷ rs) ]
      ]

  abbrev pub empty_report : Tournament S → Report
  empty_report t = record {
    tournament_id = t.id;
    seed = t.config.seed;
    matches = [];
    wins = [];
    ties = 0;
    completed = 0;
    timeouts = 0;
    errors = 0;
    resigns = 0;
  }

  -- The reports, in order, with their sums.
  unfoldable pub report_of : Tournament S → List MatchReport → Report
  report_of t rs =
      let sorted = sort_by report_less rs in
      add_reports (record (empty_report t) { matches = sorted }) sorted

  unfoldable pub run_from : Office S → Tournament S → List Row → Ran Report
  run_from o t rows = elim (stored_reports rows) [
    | halts fault ↦ halts fault
    | ran old ↦ elim (run_rounds o t rows (pos_part t.config.rounds) 0) [
      | halts fault ↦ halts fault
      | ran new ↦ ran (report_of t (old ++ new))
    ]
  ]

  -- `Run`
  unfoldable pub run : Office S → Tournament S → Ran Report
  run o t =
      if t.config.has_store
      then elim (ran_found (o.rows t.id)) [
        | halts fault ↦ halts fault
        | ran rows ↦ run_from o t rows
      ]
      else run_from o t []

  -- `RunTournament`
  unfoldable pub run_tournament : Office S → TournamentConfig S → Ran Report
  run_tournament o c = elim (new_tournament o c) [ halts fault ↦ halts fault | ran t ↦ run o t ]
