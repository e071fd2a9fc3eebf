-- ===== src/Tournament/Run/Rounds.antt =====
-- The rounds of a tournament that begins: each is played once, and the report has them in order.
use worms_ng.Prelude.{
  Dict, List, String, [], ap, arith, if_elim, if◌then◌else◌, inl, inr, option_elim, pos_part, refl,
  str_eq, subst, suc, sym, zero, ℕ, ◌&&◌, ◌++◌, ◌<◌, ◌∙◌, ◌∷◌, ◌≡◌, ◌≤◌, ◌⊎◌,
}
use worms_ng.Engine.Masks.{colors}
use worms_ng.Engine.Snapshot.{insert_sorted, sort_by}
use worms_ng.Match.{Match}
use worms_ng.Match.Setup.{Config, found, new_match}
use worms_ng.Tournament.{
  MatchReport, Office, Ran, Report, Tournament, TournamentConfig, halts, new_tournament, ran,
  ran_found, settle, validate_tournament,
}
use worms_ng.Tournament.Play.{
  RoundEnd, aborted, close_report, close_round, ended, open_report, play_turns, ran_setup,
  run_round, start_round, turns_left, unfinished,
}
use worms_ng.Tournament.Play.Ends.{Ends, play_turns-Ends}
use worms_ng.Tournament.Run.{
  active_row, add_report, add_reports, empty_report, report_less, report_of, run, run_from,
  run_rounds, run_tournament, stored_reports,
}
use worms_ng.Tournament.Run.Totals.{IsTally, report_of-IsTally}
use worms_ng.Tournament.Seats.{palette_from, round_config, seat_colors}

-- A report that a round has closed.
pub record IsClosed (most round : ℕ) (r : MatchReport) : Type 0 where
  pub of_round : r.round ≡ round
  pub few_turns : r.turns ≤ most
  pub over : (r.status ≡ "finished") ⊎ (r.status ≡ "stopped")

-- What holds of a value, if there is one.
abbrev pub Yields : {A : Type 0} → (A → Type 0) → Ran A → Type 0
Yields P (ran a) = P a
Yields P (halts fault) = Unit

-- One closed report for each of the rounds from `round` on, in their order.
abbrev pub AllClosed : ℕ → ℕ → ℕ → List MatchReport → Type 0
AllClosed most zero round [] = Unit
AllClosed most zero round (r ∷ rs) = ⊥
AllClosed most (suc left) round [] = ⊥
AllClosed most (suc left) round (r ∷ rs) =
    IsClosed most round r × AllClosed most left (suc round) rs

-- Reports in the order of their rounds are sorted.
insert_sorted-first :
    (most left round : ℕ) (r : MatchReport) (rs : List MatchReport)
    → r.round ≡ round
    → AllClosed most left (suc round) rs
    → insert_sorted report_less r rs ≡ r ∷ rs
unfolding insert_sorted report_less
insert_sorted-first most zero round r [] e h = refl
insert_sorted-first most zero round r (x ∷ rs) e h = elim h [ ]
insert_sorted-first most (suc left) round r [] e h = elim h [ ]
insert_sorted-first most (suc left) round r (x ∷ rs) e h = let same = h.0.of_round in ground arith

sort_by-AllClosed :
    (most left round : ℕ) (rs : List MatchReport)
    → AllClosed most left round rs
    → sort_by report_less rs ≡ rs
unfolding sort_by
sort_by-AllClosed most zero round [] h = refl
sort_by-AllClosed most zero round (r ∷ rs) h = elim h [ ]
sort_by-AllClosed most (suc left) round [] h = elim h [ ]
sort_by-AllClosed most (suc left) round (r ∷ rs) h =
    ap (insert_sorted report_less r) (sort_by-AllClosed most left (suc round) rs h.1)
    ∙ insert_sorted-first most left round r rs h.0.of_round h.1

module _ {S : Type 0} (o : Office S) (t : Tournament S) where
  close_round-IsClosed :
      (most : ℕ) (r₀ : MatchReport) (x : RoundEnd S)
      → r₀.turns ≡ 0
      → Ends most r₀ x
      → Yields (IsClosed most r₀.round) (close_round o t x)
  unfolding close_round close_report
  close_round-IsClosed most r₀ unfinished e h = elim h [ ]
  close_round-IsClosed most r₀ (aborted fault) e h = tt
  close_round-IsClosed most r₀ (ended m r capped) e (over, few, same) =
      let closed = report_closed in
      if_elim (Yields (IsClosed most r₀.round)) t.config.has_store
        (λ x.
          option_elim (Yields (IsClosed most r₀.round)) (o.close _) (λ y. closed) (λ reason y. tt))
        (λ x. closed)
    where
      low : r.turns ≤ most
      low = elim few [ inl h ↦ h | inr h ↦ omega arith ]

      report_closed : IsClosed most r₀.round (close_report o t m r capped)
      report_closed =
          if_elim (IsClosed most r₀.round) capped
            (λ x. record { of_round = same; few_turns = low; over = inr refl })
            (λ x. record { of_round = same; few_turns = low; over = inl refl })

  start_round-IsClosed :
      (round : ℕ) (colors : Dict String String)
      → 0 < pos_part t.config.max_turns
      → Yields (IsClosed (pos_part t.config.max_turns) round) (start_round o t round colors)
  unfolding start_round open_report
  start_round-IsClosed round colors some_turns =
      started (ran_setup (new_match o.world o.archive config))
    where
      config : Config S
      config = round_config o t round (o.game_name t.id round)

      P : Ran MatchReport → Type 0
      P = Yields (IsClosed (pos_part t.config.max_turns) round)

      report : Match S → MatchReport
      report m = record (open_report t round m config.seed "") { colors = colors }

      named :
          (m : Match S) (x : Ran String)
          → P (elim x [
            | halts fault ↦ halts fault
            | ran id ↦
                close_round o t (play_turns o t (turns_left t) m (record (report m) { id = id }))
          ])
      named m (halts fault) = tt
      named m (ran id) =
          close_round-IsClosed (pos_part t.config.max_turns) (record (report m) { id = id }) _ refl
            (play_turns-Ends o t m (record (report m) { id = id }) some_turns)

      started :
          (x : Ran (Match S))
          → P (elim x [
            | halts fault ↦ halts fault
            | ran m ↦
                if t.config.has_store
                then elim (ran_found (o.create_row (report m))) [
                  | halts fault ↦ halts fault
                  | ran id ↦
                      close_round o t
                        (play_turns o t (turns_left t) m (record (report m) { id = id }))
                ]
                else close_round o t (play_turns o t (turns_left t) m (report m))
          ])
      started (halts fault) = tt
      started (ran m) =
          if_elim P t.config.has_store (λ x. named m (ran_found (o.create_row (report m))))
            (λ x.
              close_round-IsClosed (pos_part t.config.max_turns) (report m) _ refl
                (play_turns-Ends o t m (report m) some_turns))

  -- The rounds of a tournament with no rows.
  run_rounds-AllClosed :
      (left round : ℕ)
      → 0 < pos_part t.config.max_turns
      → Yields (AllClosed (pos_part t.config.max_turns) left round) (run_rounds o t [] left round)
  unfolding run_rounds active_row run_round
  run_rounds-AllClosed zero round some_turns = tt
  run_rounds-AllClosed (suc left) round some_turns =
      both
        (start_round o t round
          (seat_colors (palette_from o 0 t.config.participants) round 0 t.config.participants []))
        (run_rounds o t [] left (suc round)) (start_round-IsClosed round _ some_turns)
        (run_rounds-AllClosed left (suc round) some_turns)
    where
      most : ℕ
      most = pos_part t.config.max_turns

      both :
          (x : Ran MatchReport) (rest : Ran (List MatchReport))
          → Yields (IsClosed most round) x
          → Yields (AllClosed most left (suc round)) rest
          → Yields (AllClosed most (suc left) round) (elim x [
            | halts fault ↦ halts fault
            | ran r ↦ elim rest [ halts fault ↦ halts fault | ran rs ↦ ran (r ∷ rs) ]
          ])
      both (halts fault) rest h k = tt
      both (ran r) (halts fault) h k = tt
      both (ran r) (ran rs) h k = (h, k)

  -- A report that is complete: a closed report for each round, in order, and their sums.
  abbrev pub IsComplete : Report → Type 0
  IsComplete report =
      AllClosed (pos_part t.config.max_turns) (pos_part t.config.rounds) 0 report.matches
      × IsTally report report.matches

  matches-add_reports :
      (x : Report) (rs : List MatchReport) → (add_reports x rs).matches ≡ x.matches
  unfolding add_reports add_report
  matches-add_reports x [] = refl
  matches-add_reports x (r ∷ rs) = matches-add_reports (add_report x r) rs ∙ ground arith

  report_of-IsComplete :
      (rs : List MatchReport)
      → AllClosed (pos_part t.config.max_turns) (pos_part t.config.rounds) 0 rs
      → IsComplete (report_of t rs)
  unfolding report_of
  report_of-IsComplete rs h =
      let sorted = sort_by report_less rs in
      let most = pos_part t.config.max_turns in
      let rounds = pos_part t.config.rounds in
      let kept =
        matches-add_reports (record (empty_report t) { matches = sorted }) sorted
        ∙ sort_by-AllClosed most rounds 0 rs h in
      (
        subst (AllClosed most rounds 0) (sym kept) h,
        subst (IsTally (report_of t rs)) (sym kept) (report_of-IsTally t rs),
      )

  run_from-IsComplete : 0 < pos_part t.config.max_turns → Yields IsComplete (run_from o t [])
  unfolding run_from stored_reports
  run_from-IsComplete some_turns =
      reported (run_rounds o t [] (pos_part t.config.rounds) 0)
        (run_rounds-AllClosed (pos_part t.config.rounds) 0 some_turns)
    where
      reported :
          (x : Ran (List MatchReport))
          → Yields (AllClosed (pos_part t.config.max_turns) (pos_part t.config.rounds) 0) x
          → Yields IsComplete
              (elim x [ halts fault ↦ halts fault | ran new ↦ ran (report_of t ([] ++ new)) ])
      reported (halts fault) h = tt
      reported (ran rs) h = report_of-IsComplete rs h

  run-IsComplete :
      0 < pos_part t.config.max_turns → o.rows t.id ≡ found [] → Yields IsComplete (run o t)
  unfolding run
  run-IsComplete some_turns fresh =
      if_elim (Yields IsComplete) t.config.has_store
        (λ e. rw fresh (run_from-IsComplete some_turns)) (λ e. run_from-IsComplete some_turns)

module _ {S : Type 0} (o : Office S) (c : TournamentConfig S) where
  -- A tournament with the settled configuration.
  abbrev IsSettled : Tournament S → Type 0
  IsSettled t = (t.config ≡ settle c) × (0 < pos_part t.config.max_turns)

  settle_turns : 0 < pos_part (settle c).max_turns
  settle_turns = ground arith

  new_tournament-IsSettled : Yields IsSettled (new_tournament o c)
  unfolding new_tournament
  new_tournament-IsSettled =
      option_elim (Yields IsSettled) (validate_tournament c)
        (λ e.
          if_elim (Yields IsSettled) (c.has_store && str_eq c.id "")
            (λ x. created (ran_found (o.create_tournament (settle c)))) (λ x. (refl, settle_turns)))
        (λ fault e. tt)
    where
      created :
          (x : Ran String)
          → Yields IsSettled (elim x [
            | ran id ↦ ran (record { config = settle c; id = id })
            | halts fault ↦ halts fault
          ])
      created (ran id) = (refl, settle_turns)
      created (halts fault) = tt

  -- What RunTournament returns: the settled tournament of which the report is complete.
  abbrev pub Reports : Report → Type 0
  Reports report = (t : Tournament S) × (t.config ≡ settle c) × IsComplete o t report

  -- A report that RunTournament returns, where the store has no rows of the tournament, lists one
  -- match for each round, in the order of the rounds, each finished or stopped within the cap of
  -- turns of the settled configuration, and its counts and wins are the sums over the matches.
  pub run_tournament-Reports :
      ((id : String) → o.rows id ≡ found []) → Yields Reports (run_tournament o c)
  unfolding run_tournament
  run_tournament-Reports fresh = played (new_tournament o c) new_tournament-IsSettled
    where
      complete :
          (t : Tournament S)
          → t.config ≡ settle c
          → (x : Ran Report) → Yields (IsComplete o t) x
          → Yields Reports x
      complete t e (ran report) h = (t, e, h)
      complete t e (halts fault) h = tt

      played :
          (x : Ran (Tournament S))
          → Yields IsSettled x
          → Yields Reports (elim x [ halts fault ↦ halts fault | ran t ↦ run o t ])
      played (halts fault) h = tt
      played (ran t) h = complete t h.0 (run o t) (run-IsComplete o t h.1 (fresh t.id))
