-- ===== src/Match/Rounds.antt =====
-- `Advance`, `Resolve` and `Submit` of match.go: the operations of a match.
use worms_ng.Prelude.{
  Bool, List, Option, String, [], drop, false, if◌then◌else◌, is_empty, length, ltb, none, not,
  pos_part, some, true, update, ℕ, ℤ, ◌&&◌, ◌+◌, ◌==◌, ◌∷◌,
}
use worms_ng.Engine.Turns.{advance_round}
use worms_ng.Engine.Types.{Event, Result, State, err, no_event, ok}
use worms_ng.Match.{
  Controller, Match, Outcome, Reply, World, bad_action, controller_at, decision_pending, done,
  engine_failed, fails, finished, no_pending, not_due, now, persist, restore_runtime, status_of,
  store_failed, ticked,
}
use worms_ng.Match.Play.{
  is_resign_kind, outcome_of, record_last_action, request_locked, resolve_terminal,
  restore_on_error, submit_locked, take_answer,
}
use worms_ng.Match.Same.{apply_same_previous, prepare_same}
use worms_ng.Protocol.{
  Action, DecisionRequest, outcome_accepted, outcome_resigned, outcome_timeout, validate_action,
}

-- `Result`, without the copy of the state: the events, the request that is awaited, the outcome.
pub record Played : Type 0 where
  pub events : List Event
  pub asked : Option DecisionRequest
  pub outcome : Option Outcome

abbrev pub plain_events : List Event → Played
plain_events events = record { events = events; asked = none; outcome = none }

abbrev pub awaits : State → Bool
awaits s = elim s.pending [ none ↦ false | some p ↦ true ]

module _ {S : Type 0} where
  -- The result of an outcome.
  unfoldable pub with_outcome : Match S × Reply Outcome → Match S × Reply Played
  with_outcome (m, fails fault) = (m, fails fault)
  with_outcome (m, done o) = (m, done (record { events = []; asked = none; outcome = some o }))

  -- The call of the controller `c` and what follows it in `resolveAutomatedLocked`.
  unfoldable pub ask_controller :
      World S
      → Match S
      → Match S
      → Controller S
      → DecisionRequest
      → String
      → ℤ
      → Match S × Reply Outcome
  ask_controller e before m c r name slot =
      let asked = c.decide (m.memory (pos_part slot)) r in
      let m' = record m { memory = update m.memory (pos_part slot) asked.0 } in
      if not (ltb (now m') r.deadline)
      then restore_on_error before
          (resolve_terminal e (ticked m') r name slot outcome_timeout none "deadline expired")
      else take_answer e before (ticked m') c r name slot asked.1

  -- `resolveAutomatedLocked` behind its request.
  unfoldable pub answer_request :
      World S → Match S → String → ℤ → Match S × Reply DecisionRequest → Match S × Reply Played
  answer_request e before name slot (m, fails fault) = (restore_runtime before m, fails fault)
  answer_request e before name slot (m, done r) = elim (controller_at m slot) [
    | none ↦ (m, done (record { events = []; asked = some r; outcome = none }))
    | some c ↦ with_outcome (ask_controller e before m c r name slot)
  ]

  -- `resolveAutomatedLocked`, for the events behind the first `first`.
  unfoldable pub resolve_automated : World S → Match S → ℕ → Match S × Reply Played
  resolve_automated e m first = elim m.state.pending [
    | none ↦ (m, done (plain_events (drop first m.state.events)))
    | some p ↦ answer_request e m p.worm_id p.slot (request_locked e m p.worm_id p.slot p.request)
  ]

  -- The deadline of a decision that a round has come to.
  unfoldable pub set_deadline : Match S → Match S
  set_deadline m =
      if awaits m.state && m.pending_deadline == 0
      then record m { pending_deadline = now m + m.deadline; reads = m.reads + 1 }
      else m

  -- `Advance` behind the round; `before` is the match before it.
  unfoldable pub round_done :
      World S → Match S → Match S → State × Result (List Event) → Match S × Reply Played
  round_done e before m (s, err fault) = (restore_runtime before m, fails (engine_failed fault))
  round_done e before m (s, ok events) =
      let m₁ = record_last_action (record m { state = s }) events in
      let m₂ = set_deadline (record m₁ { state = apply_same_previous m₁.state }) in
      let shown =
        if awaits m₂.state && is_empty events
        then record no_event { kind = "decision_pending" } ∷ []
        else events in
      elim (persist e m₂ shown none (status_of m₂)) [
        | some reason ↦ (restore_runtime before m₂, fails (store_failed reason))
        | none ↦
            if awaits m₂.state
            then resolve_automated e m₂ (length before.state.events)
            else (m₂, done (plain_events events))
      ]

  -- `Advance`
  unfoldable pub advance : World S → Match S → Match S × Reply Played
  advance e m =
      let s = if m.has_store then m.state else prepare_same m.last_action m.state in
      let m' = record m { state = s } in
      if m.state.game_over then (m, fails finished) else elim m.state.pending [
        | some p ↦ elim (controller_at m p.slot) [
          | none ↦ (m, fails decision_pending)
          | some c ↦ resolve_automated e m (length m.state.events)
        ]
        | none ↦ round_done e m m' (advance_round m'.state)
      ]

  -- `Resolve` behind its request.
  unfoldable pub resolve_due :
      World S → String → ℤ → Match S × Reply DecisionRequest → Match S × Reply Outcome
  resolve_due e name slot (m, fails fault) = (m, fails fault)
  resolve_due e name slot (m, done r) =
      if ltb (now m) r.deadline
      then (ticked m, fails not_due)
      else resolve_terminal e (ticked m) r name slot outcome_timeout none "deadline expired"

  -- `Resolve`
  unfoldable pub resolve : World S → Match S → Match S × Reply Outcome
  resolve e m = elim m.state.pending [
    | none ↦ (m, fails no_pending)
    | some p ↦ resolve_due e p.worm_id p.slot (request_locked e m p.worm_id p.slot p.request)
  ]

  -- The end of `Submit`.
  unfoldable pub accepted_move :
      DecisionRequest → String → Action → Match S × Reply Unit → Match S × Reply Outcome
  accepted_move r name a (m, fails fault) = (m, fails fault)
  accepted_move r name a (m, done _) =
      (ticked m, done (outcome_of m r name outcome_accepted (some a) "" []))

  -- `Submit` behind its request.
  unfoldable pub submit_due :
      World S → Action → String → ℤ → Match S × Reply DecisionRequest → Match S × Reply Outcome
  submit_due e a name slot (m, fails fault) = (m, fails fault)
  submit_due e a name slot (m, done r) =
      let m' = ticked m in
      if not (ltb (now m) r.deadline)
      then resolve_terminal e m' r name slot outcome_timeout none "deadline expired"
      else elim (validate_action a) [
        | some fault ↦ (m', fails (bad_action fault))
        | none ↦
            if is_resign_kind a.kind
            then resolve_terminal e m' r name slot outcome_resigned (some a) "human resigned"
            else accepted_move r name a (submit_locked e m' r name a)
      ]

  -- `Submit`
  unfoldable pub submit_human : World S → Match S → Action → Match S × Reply Outcome
  submit_human e m a = elim m.state.pending [
    | none ↦ (m, fails no_pending)
    | some p ↦ submit_due e a p.worm_id p.slot (request_locked e m p.worm_id p.slot p.request)
  ]
