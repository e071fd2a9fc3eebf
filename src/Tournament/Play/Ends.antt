-- ===== src/Tournament/Play/Ends.antt =====
-- The loop over the turns of a round ends, with a match that is over.
use worms_ng.Prelude.{
  Option, [], arith, if_elim, inl, inr, leb, ltb, none, option_elim, pos_part, refl, some, suc,
  true, zero, ℕ, ◌&&◌, ◌+◌, ◌<◌, ◌∙◌, ◌∷◌, ◌≡◌, ◌≤◌, ◌⊎◌,
}
use worms_ng.Engine.Types.{no_event}
use worms_ng.Match.{Match, Outcome, Reply, World, done, fails, keep_or_restore, persist, stop}
use worms_ng.Match.Rounds.{Played, advance, resolve}
use worms_ng.Tournament.{MatchReport, Office, Tournament}
use worms_ng.Tournament.Play.{
  RoundEnd, aborted, after_advance, after_resolve, after_stop, count_outcome, count_turn, ended,
  play_turns, save_turn, shows_pending, turns_left, unfinished,
}

-- The loop that began with the report `r₀` has ended within `most` turns, or with no further turn,
-- the match is over, and the report is of the same round.
abbrev pub Ends : {S : Type 0} → ℕ → MatchReport → RoundEnd S → Type 0
Ends most r₀ (ended m r capped) =
    (m.state.game_over ≡ true) × ((r.turns ≤ most) ⊎ (r.turns ≡ r₀.turns)) × (r.round ≡ r₀.round)
Ends most r₀ (aborted fault) = Unit
Ends most r₀ unfinished = ⊥

-- A report after one more turn.
abbrev IsNext : MatchReport → MatchReport → Type 0
IsNext r₀ r = (r.turns ≡ suc r₀.turns) × (r.round ≡ r₀.round)

-- A stop that succeeds leaves a match that is over.
abbrev StopsMatch : {S : Type 0} → Match S × Reply Unit → Type 0
StopsMatch (m, done _) = m.state.game_over ≡ true
StopsMatch (m, fails fault) = Unit

module _ {S : Type 0} where
  stop-StopsMatch : (e : World S) (m : Match S) → StopsMatch (stop e m)
  unfolding stop keep_or_restore
  stop-StopsMatch e m =
      let s = record m.state { pending = none; game_over = true } in
      let m' = record m { state = s; pending_deadline = 0 } in
      let events = record no_event { kind = "match_stopped" } ∷ [] in
      if_elim StopsMatch m.state.game_over (λ over. over)
        (λ x.
          option_elim StopsMatch (persist e m' events none "stopped") (λ y. refl) (λ reason y. tt))

  after_stop-Ends :
      (most : ℕ) (r₀ r : MatchReport) (x : Match S × Reply Unit)
      → StopsMatch x
      → (r.turns ≤ most) ⊎ (r.turns ≡ r₀.turns)
      → r.round ≡ r₀.round
      → Ends most r₀ (after_stop r x)
  unfolding after_stop
  after_stop-Ends most r₀ r (m, done _) over few same = (over, few, same)
  after_stop-Ends most r₀ r (m, fails fault) over few same = tt

count_outcome-IsNext :
    (r₀ : MatchReport) (o : Option Outcome) (r : MatchReport)
    → IsNext r₀ r
    → IsNext r₀ (count_outcome o r)
unfolding count_outcome
count_outcome-IsNext r₀ none r h = h
count_outcome-IsNext r₀ (some o) r h = (ground arith, ground arith)

-- One turn, if the loop behind it ends.
module _ {S : Type 0} (o : Office S) (t : Tournament S) (most : ℕ) (r₀ : MatchReport)
    (k : Match S → MatchReport → RoundEnd S)
    (goes_on : (m : Match S) (r : MatchReport) → IsNext r₀ r → Ends most r₀ (k m r)) where
  save_turn-Ends :
      (m : Match S) (r : MatchReport) → IsNext r₀ r → Ends most r₀ (save_turn o t k m r)
  unfolding save_turn
  save_turn-Ends m r after =
      if_elim (Ends most r₀) t.config.has_store
        (λ x. option_elim (Ends most r₀) (o.save r) (λ y. goes_on m r after) (λ reason y. tt))
        (λ x. goes_on m r after)

  after_resolve-Ends :
      (r : MatchReport) (x : Match S × Reply Outcome)
      → r₀.turns < most
      → IsNext r₀ r
      → Ends most r₀ (after_resolve o t k r x)
  unfolding after_resolve
  after_resolve-Ends r (m, done outcome) low after = save_turn-Ends m r after
  after_resolve-Ends r (m, fails fault) low after =
      after_stop-Ends most r₀ (record r { timeouts = r.timeouts + 1 }) (stop o.world m)
        (stop-StopsMatch o.world m) (inl (omega (arith, after.0))) after.1

  after_advance-Ends :
      (r : MatchReport) (x : Match S × Reply Played)
      → r₀.turns < most
      → IsNext r₀ r
      → Ends most r₀ (after_advance o t k r x)
  unfolding after_advance
  after_advance-Ends r (m, fails fault) low after =
      if_elim (Ends most r₀) (shows_pending fault)
        (λ e. after_resolve-Ends r (resolve o.world m) low after)
        (λ e.
          after_stop-Ends most r₀ (record r { errors = r.errors + 1 }) (stop o.world m)
            (stop-StopsMatch o.world m) (inl (omega (arith, after.0))) after.1)
  after_advance-Ends r (m, done played) low after =
      let r' = count_outcome played.outcome r in
      let later' = count_outcome-IsNext r₀ played.outcome r after in
      option_elim (Ends most r₀) played.asked (λ e. save_turn-Ends m r' later')
        (λ q e. after_resolve-Ends r' (resolve o.world m) low later')

module _ {S : Type 0} (o : Office S) (t : Tournament S) where
  -- A loop that has ended from the next turn on has ended.
  Ends-earlier :
      (most : ℕ) (r₀ r : MatchReport) (x : RoundEnd S)
      → r₀.turns < most
      → IsNext r₀ r
      → Ends most r x
      → Ends most r₀ x
  Ends-earlier most r₀ r (ended m r' capped) low after (over, inl few, same) =
      (over, inl few, same ∙ after.1)
  Ends-earlier most r₀ r (ended m r' capped) low after (over, inr last, same) =
      (over, inl (omega (arith, after.0)), same ∙ after.1)
  Ends-earlier most r₀ r (aborted fault) low after h = tt
  Ends-earlier most r₀ r unfinished low after h = h

  play_turn-Ends :
      (fuel : ℕ) (m : Match S) (r : MatchReport)
      → 0 < pos_part t.config.max_turns
      → (r.turns < pos_part t.config.max_turns
          → (m' : Match S) (r' : MatchReport) → IsNext r r'
          → Ends (pos_part t.config.max_turns) r' (play_turns o t fuel m' r'))
      → Ends (pos_part t.config.max_turns) r (play_turns o t (suc fuel) m r)
  unfolding play_turns
  play_turn-Ends fuel m r some_turns later =
      let most = pos_part t.config.max_turns in
      if_elim (Ends most r) m.state.game_over (λ over. (over, inr refl, refl))
        (λ e.
          if_elim (Ends most r) (ltb 0 most && leb most r.turns)
            (λ full.
              after_stop-Ends most r r (stop o.world m) (stop-StopsMatch o.world m) (inr refl) refl)
            (λ more.
              let low : r.turns < most = ground arith in
              after_advance-Ends o t most r (play_turns o t fuel)
                (λ m' r' after.
                  Ends-earlier most r r' (play_turns o t fuel m' r') low after
                    (later low m' r' after))
                (count_turn r) (advance o.world m) low (omega arith, refl)))

  play_fuel-Ends :
      (fuel : ℕ) (m : Match S) (r : MatchReport)
      → 0 < pos_part t.config.max_turns
      → pos_part t.config.max_turns ≤ r.turns + fuel
      → Ends (pos_part t.config.max_turns) r (play_turns o t (suc fuel) m r)
  play_fuel-Ends zero m r some_turns enough =
      play_turn-Ends zero m r some_turns (λ low m' r' after. absurd (omega arith))
  play_fuel-Ends (suc fuel) m r some_turns enough =
      play_turn-Ends (suc fuel) m r some_turns
        (λ low m' r' after. play_fuel-Ends fuel m' r' some_turns (omega (arith, after.0)))

  -- With a positive cap of turns, the loop of runRound ends within its fuel of one more than the
  -- cap: by an error of the store, or with a match that is over and a report of the same round,
  -- whose turns are within the cap or those it began with.
  pub play_turns-Ends :
      (m : Match S) (r : MatchReport)
      → 0 < pos_part t.config.max_turns
      → Ends (pos_part t.config.max_turns) r (play_turns o t (turns_left t) m r)
  play_turns-Ends m r some_turns =
      play_fuel-Ends (pos_part t.config.max_turns) m r some_turns (omega arith)
