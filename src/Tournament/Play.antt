-- ===== src/Tournament/Play.antt =====
-- `runRound` of tournament.go: one match of a tournament, from its first turn or from where its row
-- was left.
pub mod Ends
use worms_ng.Prelude.{
  Bool, Dict, List, Option, String, [], count_if, false, if◌then◌else◌, insert, is_empty, leb, ltb,
  none, pos_part, some, str_eq, string_eq, suc, true, zero, ℕ, ℤ, ◌&&◌, ◌+◌, ◌∷◌,
}
use worms_ng.Engine.Masks.{colors}
use worms_ng.Engine.Observe.{tied, winners}
use worms_ng.Engine.Sample.{asked}
use worms_ng.Engine.Types.{Event, Worm, game_over}
use worms_ng.Match.{Match, MatchError, Outcome, Reply, decision_pending, done, fails, stop}
use worms_ng.Match.Resume.{resume_match}
use worms_ng.Match.Rounds.{Played, advance, resolve}
use worms_ng.Match.Setup.{Setup, new_match, ready, stops}
use worms_ng.Protocol.{outcome_disconnect, outcome_resigned, outcome_timeout}
use worms_ng.Tournament.{
  MatchReport, Office, Participant, Ran, Row, Tournament, TournamentError, decode_report, halts,
  no_match, not_stopped, ran, ran_found, store_fault,
}
use worms_ng.Tournament.Seats.{palette_from, round_config, seat_colors}

-- How the loop over the turns ends: the match and its report, and whether it was stopped.
pub data RoundEnd (S : Type 0) : Type 0 where
  ended : Match S → MatchReport → Bool → RoundEnd S
  aborted : TournamentError → RoundEnd S
  unfinished : RoundEnd S

-- The counts of an outcome.
unfoldable pub count_outcome : Option Outcome → MatchReport → MatchReport
count_outcome none r = r
count_outcome (some o) r = elim o.kind [
  | outcome_timeout ↦ record r { timeouts = r.timeouts + 1 }
  | outcome_disconnect ↦ record r { errors = r.errors + 1 }
  | outcome_resigned ↦ record r { resigns = r.resigns + 1 }
  | _ ↦ r
]

abbrev pub count_turn : MatchReport → MatchReport
count_turn r = record r { turns = r.turns + 1 }

-- Whether the result that Advance returns with an error has a pending decision.
abbrev pub shows_pending : MatchError → Bool
shows_pending decision_pending = true
shows_pending fault = false

unfoldable pub score_table : List Worm → Dict String ℤ → Dict String ℤ
score_table [] scores = scores
score_table (w ∷ ws) scores = score_table ws (insert w.id w.score scores)

abbrev pub is_move : Event → Bool
is_move e = str_eq e.kind "worm_moved"

-- What a stored report gives to the round that goes on from it.
unfoldable pub take_prior : Option MatchReport → MatchReport → MatchReport
take_prior none r = r
take_prior (some prior) r = record r {
  timeouts = prior.timeouts;
  errors = prior.errors;
  resigns = prior.resigns;
  turns = prior.turns;
  move_count = prior.move_count;
  colors = if is_empty prior.colors then r.colors else prior.colors;
}

module _ {S : Type 0} where
  -- A stop that the store accepts ends the loop.
  unfoldable pub after_stop : MatchReport → Match S × Reply Unit → RoundEnd S
  after_stop r (m, done _) = ended m r true
  after_stop r (m, fails fault) = aborted (not_stopped fault)

  -- The end of a turn: the row is written, and the loop `k` goes on.
  unfoldable pub save_turn :
      Office S
      → Tournament S
      → (Match S → MatchReport → RoundEnd S)
      → Match S
      → MatchReport
      → RoundEnd S
  save_turn o t k m r =
      let rest = k m r in
      if t.config.has_store
      then elim (o.save r) [ none ↦ rest | some reason ↦ aborted (store_fault reason) ]
      else rest

  -- What follows `Resolve`. A decision that cannot be resolved stops the match.
  unfoldable pub after_resolve :
      Office S
      → Tournament S
      → (Match S → MatchReport → RoundEnd S)
      → MatchReport
      → Match S × Reply Outcome
      → RoundEnd S
  after_resolve o t k r (m, done outcome) = save_turn o t k m r
  after_resolve o t k r (m, fails fault) =
      after_stop (record r { timeouts = r.timeouts + 1 }) (stop o.world m)

  -- What follows `Advance`.
  unfoldable pub after_advance :
      Office S
      → Tournament S
      → (Match S → MatchReport → RoundEnd S)
      → MatchReport
      → Match S × Reply Played
      → RoundEnd S
  after_advance o t k r (m, fails fault) =
      let pending = after_resolve o t k r (resolve o.world m) in
      if shows_pending fault
      then pending
      else after_stop (record r { errors = r.errors + 1 }) (stop o.world m)
  after_advance o t k r (m, done played) =
      let r' = count_outcome played.outcome r in
      elim played.asked [
        | none ↦ save_turn o t k m r'
        | some _ ↦ after_resolve o t k r' (resolve o.world m)
      ]

  -- The loop over the turns. The turns that are counted are those of the report.
  unfoldable pub play_turns : Office S → Tournament S → ℕ → Match S → MatchReport → RoundEnd S
  play_turns o t zero m r = unfinished
  play_turns o t (suc fuel) m r =
      let most = pos_part t.config.max_turns in
      if m.state.game_over
      then ended m r false
      else if ltb 0 most && leb most r.turns
      then after_stop r (stop o.world m)
      else after_advance o t (play_turns o t fuel) (count_turn r) (advance o.world m)

  -- The report of a match that is over, or was stopped.
  unfoldable pub close_report : Office S → Tournament S → Match S → MatchReport → Bool → MatchReport
  close_report o t m r capped =
      let played = record r {
        scores = score_table m.state.worms r.scores;
        move_count = count_if is_move m.state.events;
        event_end =
            if t.config.has_store
            then elim (o.sequence m) [ none ↦ r.event_end | some n ↦ n ]
            else r.event_end;
      } in
      if capped
      then record played { status = "stopped" }
      else record played { winners = winners m.state; tie = tied m.state; status = "finished" }

  unfoldable pub close_round : Office S → Tournament S → RoundEnd S → Ran MatchReport
  close_round o t unfinished = halts (store_fault "unfinished")
  close_round o t (aborted fault) = halts fault
  close_round o t (ended m r capped) =
      let r' = close_report o t m r capped in
      if t.config.has_store
      then elim (o.close r') [ none ↦ ran r' | some reason ↦ halts (store_fault reason) ]
      else ran r'

  -- The brain versions of the participants that have one.
  unfoldable pub version_table :
      List String → List (Participant S) → Dict String String → Dict String String
  version_table [] ps table = table
  version_table (v ∷ vs) [] table = table
  version_table (v ∷ vs) (p ∷ ps) table =
      version_table vs ps (if str_eq v "" then table else insert p.id v table)

  -- The report with which a round begins.
  unfoldable pub open_report : Tournament S → ℕ → Match S → ℤ → String → MatchReport
  open_report t round m seed id =
      let c = t.config in
      record {
        id = id;
        game_id = m.game_id;
        round = round;
        seed = seed;
        colors = [];
        scores = [];
        winners = [];
        tie = false;
        status = "active";
        turns = 0;
        move_count = 0;
        timeouts = 0;
        errors = 0;
        resigns = 0;
        brain_version_ids = version_table m.brain_versions c.participants [];
        event_end = 0;
        replay_link = m.game_id;
      }

  abbrev pub ran_setup : Setup (Match S) → Ran (Match S)
  ran_setup (ready m) = ran m
  ran_setup (stops fault) = halts (no_match fault)

  -- The fuel that the turns need.
  abbrev pub turns_left : Tournament S → ℕ
  turns_left t = suc (pos_part t.config.max_turns)

  -- A round with a row: the match is resumed.
  unfoldable pub resume_round :
      Office S → Tournament S → ℕ → Dict String String → Row → Ran MatchReport
  resume_round o t round colors row =
      let config = round_config o t round row.game_id in
      elim (ran_setup (resume_match o.vault o.world o.archive config)) [
        | halts fault ↦ halts fault
        | ran m ↦
            let r = record (open_report t round m config.seed row.id) { colors = colors } in
            close_round o t
              (play_turns o t (turns_left t) m (take_prior (decode_report row.payload) r))
      ]

  -- A round with none: the match is new, and its row is created.
  unfoldable pub start_round : Office S → Tournament S → ℕ → Dict String String → Ran MatchReport
  start_round o t round colors =
      let config = round_config o t round (o.game_name t.id round) in
      elim (ran_setup (new_match o.world o.archive config)) [
        | halts fault ↦ halts fault
        | ran m ↦
            let r = record (open_report t round m config.seed "") { colors = colors } in
            if t.config.has_store
            then elim (ran_found (o.create_row r)) [
              | halts fault ↦ halts fault
              | ran id ↦ close_round o t (play_turns o t (turns_left t) m (record r { id = id }))
            ]
            else close_round o t (play_turns o t (turns_left t) m r)
      ]

  -- `runRound`
  unfoldable pub run_round : Office S → Tournament S → ℕ → Option Row → Ran MatchReport
  run_round o t round row =
      let ps = t.config.participants in
      let colors = seat_colors (palette_from o 0 ps) round 0 ps [] in
      elim row [ none ↦ start_round o t round colors | some x ↦ resume_round o t round colors x ]
