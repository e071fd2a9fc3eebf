-- ===== src/Match/Invariant/Calls.antt =====
-- The operations of a match keep the engine's invariant.
use worms_ng.Prelude.{
  List, String, [], if_elim, if◌then◌else◌, is_empty, length, ltb, none, not, option_elim, some,
  true, ℤ, ◌&&◌, ◌∷◌,
}
use worms_ng.Engine.Moves.WellFormed.{WellFormed}
use worms_ng.Engine.Turns.{advance_round}
use worms_ng.Engine.Turns.Invariant.{advance_round-WellFormed}
use worms_ng.Engine.Types.{Event, Result, State, err, no_event, ok}
use worms_ng.Match.{
  Match, Reply, World, controller_at, done, fails, now, persist, restore_runtime, status_of, stop,
  ticked,
}
use worms_ng.Match.Alike.{apply_same-WellFormed, prepare_same-WellFormed}
use worms_ng.Match.Invariant.{
  Keeps, keep_or_restore-Keeps, request-Keeps, resolve_automated-Keeps, resolve_terminal-Keeps,
  set_deadline-WellFormed, submit_locked-Keeps,
}
use worms_ng.Match.Play.{is_resign_kind, record_last_action, request_locked, submit_locked}
use worms_ng.Match.Rounds.{
  accepted_move, advance, awaits, resolve, resolve_due, round_done, set_deadline, submit_due,
  submit_human,
}
use worms_ng.Match.Same.{apply_same_previous, prepare_same}
use worms_ng.Protocol.{Action, DecisionRequest, outcome_resigned, outcome_timeout, validate_action}

module _ {S : Type 0} (e : World S) where
  round_done-Keeps :
      (before m : Match S) (x : State × Result (List Event))
      → WellFormed before.state
      → WellFormed x.0
      → Keeps (round_done e before m x)
  unfolding round_done restore_runtime
  round_done-Keeps before m (s, err fault) h k = h
  round_done-Keeps before m (s, ok events) h k =
      let m₁ = record_last_action (record m { state = s }) events in
      let m₁' = record m₁ { state = apply_same_previous m₁.state } in
      let m₂ = set_deadline m₁' in
      let shown =
        if awaits m₂.state && is_empty events
        then record no_event { kind = "decision_pending" } ∷ []
        else events in
      let k₂ = set_deadline-WellFormed e m₁' (apply_same-WellFormed m₁.state k) in
      option_elim Keeps (persist e m₂ shown none (status_of m₂))
        (λ x.
          if_elim Keeps (awaits m₂.state)
            (λ y. resolve_automated-Keeps e m₂ (length before.state.events) k₂) (λ y. k₂))
        (λ reason x. h)

  pub advance-Keeps : (m : Match S) → WellFormed m.state → Keeps (advance e m)
  unfolding advance
  advance-Keeps m h =
      let s = if m.has_store then m.state else prepare_same m.last_action m.state in
      let m' = record m { state = s } in
      let k : WellFormed s =
        if_elim WellFormed m.has_store (λ x. h)
          (λ x. prepare_same-WellFormed m.last_action m.state h) in
      if_elim Keeps m.state.game_over (λ x. h)
        (λ x.
          option_elim Keeps m.state.pending
            (λ y. round_done-Keeps m m' (advance_round s) h (advance_round-WellFormed s k))
            (λ p y.
              option_elim Keeps (controller_at m p.slot) (λ z. h)
                (λ c z. resolve_automated-Keeps e m (length m.state.events) h)))

  resolve_due-Keeps :
      (name : String) (slot : ℤ) (x : Match S × Reply DecisionRequest)
      → Keeps x
      → Keeps (resolve_due e name slot x)
  unfolding resolve_due
  resolve_due-Keeps name slot (m, fails fault) h = h
  resolve_due-Keeps name slot (m, done r) h =
      if_elim Keeps (ltb (now m) r.deadline) (λ x. h)
        (λ x.
          resolve_terminal-Keeps e (ticked m) r name slot outcome_timeout none "deadline expired" h)

  pub resolve-Keeps : (m : Match S) → WellFormed m.state → Keeps (resolve e m)
  unfolding resolve
  resolve-Keeps m h =
      option_elim Keeps m.state.pending (λ x. h)
        (λ p x.
          resolve_due-Keeps p.worm_id p.slot (request_locked e m p.worm_id p.slot p.request)
            (request-Keeps e m p.worm_id p.slot p.request h))

  accepted_move-Keeps :
      (r : DecisionRequest) (name : String) (a : Action) (x : Match S × Reply Unit)
      → Keeps x
      → Keeps (accepted_move r name a x)
  unfolding accepted_move
  accepted_move-Keeps r name a (m, fails fault) h = h
  accepted_move-Keeps r name a (m, done _) h = h

  submit_due-Keeps :
      (a : Action) (name : String) (slot : ℤ) (x : Match S × Reply DecisionRequest)
      → Keeps x
      → Keeps (submit_due e a name slot x)
  unfolding submit_due
  submit_due-Keeps a name slot (m, fails fault) h = h
  submit_due-Keeps a name slot (m, done r) h =
      let m' = ticked m in
      if_elim Keeps (not (ltb (now m) r.deadline))
        (λ x. resolve_terminal-Keeps e m' r name slot outcome_timeout none "deadline expired" h)
        (λ x.
          option_elim Keeps (validate_action a)
            (λ y.
              if_elim Keeps (is_resign_kind a.kind)
                (λ z.
                  resolve_terminal-Keeps e m' r name slot outcome_resigned (some a) "human resigned"
                    h)
                (λ z.
                  accepted_move-Keeps r name a (submit_locked e m' r name a)
                    (submit_locked-Keeps e m' r name a h)))
            (λ fault y. h))

  pub submit-Keeps : (m : Match S) (a : Action) → WellFormed m.state → Keeps (submit_human e m a)
  unfolding submit_human
  submit-Keeps m a h =
      option_elim Keeps m.state.pending (λ x. h)
        (λ p x.
          submit_due-Keeps a p.worm_id p.slot (request_locked e m p.worm_id p.slot p.request)
            (request-Keeps e m p.worm_id p.slot p.request h))

  pub stop-Keeps : (m : Match S) → WellFormed m.state → Keeps (stop e m)
  unfolding stop
  stop-Keeps m h =
      let s = record m.state { pending = none; game_over = true } in
      let m' = record m { state = s; pending_deadline = 0 } in
      if_elim Keeps m.state.game_over (λ x. h)
        (λ x.
          keep_or_restore-Keeps e m m' (record no_event { kind = "match_stopped" } ∷ []) none
            "stopped" tt h h)

  -- Advance, Submit, Resolve and Stop of a match keep the engine's invariant, whatever the store
  -- and the controllers answer and on every error.
  pub match_calls-WellFormed :
      (m : Match S) (a : Action)
      → WellFormed m.state
      → Keeps (advance e m) × Keeps (submit_human e m a) × Keeps (resolve e m) × Keeps (stop e m)
  match_calls-WellFormed m a h =
      (advance-Keeps m h, submit-Keeps m a h, resolve-Keeps m h, stop-Keeps m h)
