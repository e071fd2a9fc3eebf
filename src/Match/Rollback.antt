-- ===== src/Match/Rollback.antt =====
-- What a failed operation of match.go leaves of the match.
use worms_ng.Prelude.{
  List, Option, String, [], get_elem?, if_elim, length, ltb, negsuc, none, not, option_elim, pos,
  pos_part, refl, some, true, update, ℕ, ℤ, ◌==◌, ◌∙◌, ◌∷◌, ◌≡◌,
}
use worms_ng.Engine.Observe.{observe}
use worms_ng.Engine.Turns.{submit}
use worms_ng.Engine.Types.{Event, Result, State, err, no_event, ok}
use worms_ng.Match.{
  Answer, Controller, Match, Outcome, Reply, World, broke, controller_at, controller_name, done,
  fails, keep_or_restore, now, persist, picked, restore_runtime, status_of, stop, ticked,
}
use worms_ng.Match.Play.{
  accept_move, accepted_after, count_request, is_resign_kind, outcome_of, prepare_for, request_for,
  request_locked, resolve_terminal, restore_on_error, retire, submit_locked, take_answer,
}
use worms_ng.Match.Rounds.{
  accepted_move, answer_request, ask_controller, resolve, resolve_automated, resolve_due,
  submit_due, submit_human, with_outcome,
}
use worms_ng.Protocol.{
  Action, DecisionRequest, OutcomeKind, outcome_resigned, outcome_timeout, validate_action,
  validate_request,
}

-- The engine's state and the last action of two matches are the same.
pub record IsUntouched {S : Type 0} (before m : Match S) : Type 0 where
  pub same_state : m.state ≡ before.state
  pub same_action : m.last_action ≡ before.last_action
  pub same_slot : m.last_slot ≡ before.last_slot

-- An operation that fails leaves the engine's state and the last action.
abbrev pub FailsClean : {S A : Type 0} → Match S → Match S × Reply A → Type 0
FailsClean before (m, done a) = Unit
FailsClean before (m, fails fault) = IsUntouched before m

module _ {S : Type 0} where
  IsUntouched-self : (m : Match S) → IsUntouched m m
  IsUntouched-self m = record { same_state = refl; same_action = refl; same_slot = refl }

  -- A restored match is the one before.
  restored-IsUntouched : (before m : Match S) → IsUntouched before (restore_runtime before m)
  unfolding restore_runtime
  restored-IsUntouched before m = record { same_state = refl; same_action = refl; same_slot = refl }

  IsUntouched-trans :
      {before m n : Match S} → IsUntouched before m → IsUntouched m n → IsUntouched before n
  IsUntouched-trans h k = record {
    same_state = k.same_state ∙ h.same_state;
    same_action = k.same_action ∙ h.same_action;
    same_slot = k.same_slot ∙ h.same_slot;
  }

  restore_on_error-FailsClean :
      {A : Type 0} (before : Match S) (x : Match S × Reply A)
      → FailsClean before (restore_on_error before x)
  unfolding restore_on_error
  restore_on_error-FailsClean before (m, done a) = tt
  restore_on_error-FailsClean before (m, fails fault) = restored-IsUntouched before m

  keep_or_restore-FailsClean :
      {A : Type 0} (e : World S) (first before m : Match S) (events : List Event)
      (o : Option Outcome) (status : String) (a : A)
      → IsUntouched first before
      → FailsClean first (keep_or_restore e before m events o status a)
  unfolding keep_or_restore
  keep_or_restore-FailsClean e first before m events o status a h =
      option_elim (FailsClean first) (persist e m events o status) (λ x. tt)
        (λ reason x. IsUntouched-trans h (restored-IsUntouched before m))

module _ {S : Type 0} (e : World S) (before : Match S) where
  count_request-IsUntouched : IsUntouched before (count_request before)
  unfolding count_request
  count_request-IsUntouched =
      if_elim (IsUntouched before) (before.pending_deadline == 0)
        (λ x. record { same_state = refl; same_action = refl; same_slot = refl })
        (λ x. record { same_state = refl; same_action = refl; same_slot = refl })

  request-IsUntouched :
      (name : String) (slot : ℤ) (n : ℕ)
      → IsUntouched before (request_locked e before name slot n).0
  unfolding request_locked
  request-IsUntouched name (negsuc i) n =
      option_elim (λ (x : Match S × Reply DecisionRequest). IsUntouched before x.0)
        (observe before.state name) (λ x. IsUntouched-self before)
        (λ obs x. count_request-IsUntouched)
  request-IsUntouched name (pos i) n =
      let k = count_request-IsUntouched in
      let P = λ (x : Match S × Reply DecisionRequest). IsUntouched before x.0 in
      option_elim P (observe before.state name) (λ x. IsUntouched-self before)
        (λ obs x.
          option_elim P (get_elem? before.state.worms i) (λ y. k)
            (λ w y.
              option_elim P
                (validate_request (
                  request_for e (count_request before) (e.numbered before.game_id (pos n)) (pos i) w
                    obs))
                (λ z. k) (λ fault z. k)))

  resolve_terminal-FailsClean :
      (m : Match S) (r : DecisionRequest) (name : String) (slot : ℤ) (kind : OutcomeKind)
      (action : Option Action) (reason : String)
      → IsUntouched before m
      → FailsClean before (resolve_terminal e m r name slot kind action reason)
  unfolding resolve_terminal
  resolve_terminal-FailsClean m r name (negsuc i) kind action reason h = h
  resolve_terminal-FailsClean m r name (pos i) kind action reason h =
      let m' = record m { state = retire m.state i; pending_deadline = 0 } in
      let o =
        outcome_of m' r name kind action reason (("controller", controller_name m (pos i)) ∷ []) in
      let m'' = ticked m' in
      if_elim (FailsClean before) (ltb i (length m.state.worms))
        (λ x. keep_or_restore-FailsClean e before m m'' [] (some o) (status_of m'') o h) (λ x. h)

  accept_move-FailsClean :
      (saved m : Match S) (r : DecisionRequest) (name : String) (a : Action)
      (x : State × Result (List Event))
      → IsUntouched before saved
      → FailsClean before (accept_move e saved m r name a x)
  unfolding accept_move
  accept_move-FailsClean saved m r name a (s, err fault) h =
      IsUntouched-trans h (restored-IsUntouched saved m)
  accept_move-FailsClean saved m r name a (s, ok events) h =
      keep_or_restore-FailsClean e before saved _ _ _ _ tt h

  accepted_after-FailsClean :
      (c : Controller S) (r : DecisionRequest) (name : String) (a : Action)
      (x : Match S × Reply Unit)
      → FailsClean before (accepted_after before c r name a x)
  unfolding accepted_after
  accepted_after-FailsClean c r name a (m, done _) = tt
  accepted_after-FailsClean c r name a (m, fails fault) = restored-IsUntouched before m

  take_answer-FailsClean :
      (m : Match S) (c : Controller S) (r : DecisionRequest) (name : String) (slot : ℤ) (x : Answer)
      → IsUntouched before m
      → FailsClean before (take_answer e before m c r name slot x)
  unfolding take_answer
  take_answer-FailsClean m c r name slot (broke late reason) h =
      restore_on_error-FailsClean before _
  take_answer-FailsClean m c r name slot (picked a) h =
      option_elim (FailsClean before) (validate_action a)
        (λ x.
          if_elim (FailsClean before) (is_resign_kind a.kind)
            (λ y. restore_on_error-FailsClean before _)
            (λ y. accepted_after-FailsClean c r name a (submit_locked e m r name a)))
        (λ fault x. h)

  ask_controller-FailsClean :
      (m : Match S) (c : Controller S) (r : DecisionRequest) (name : String) (slot : ℤ)
      → IsUntouched before m
      → FailsClean before (ask_controller e before m c r name slot)
  unfolding ask_controller
  ask_controller-FailsClean m c r name slot h =
      let asked = c.decide (m.memory (pos_part slot)) r in
      let m' = record m { memory = update m.memory (pos_part slot) asked.0 } in
      let h' : IsUntouched before (ticked m') = record {
        same_state = h.same_state;
        same_action = h.same_action;
        same_slot = h.same_slot;
      } in
      if_elim (FailsClean before) (not (ltb (now m') r.deadline))
        (λ x.
          restore_on_error-FailsClean before
            (resolve_terminal e (ticked m') r name slot outcome_timeout none "deadline expired"))
        (λ x. take_answer-FailsClean (ticked m') c r name slot asked.1 h')

  with_outcome-FailsClean :
      (x : Match S × Reply Outcome) → FailsClean before x → FailsClean before (with_outcome x)
  unfolding with_outcome
  with_outcome-FailsClean (m, done o) h = tt
  with_outcome-FailsClean (m, fails fault) h = h

  answer_request-FailsClean :
      (name : String) (slot : ℤ) (x : Match S × Reply DecisionRequest)
      → IsUntouched before x.0
      → FailsClean before (answer_request e before name slot x)
  unfolding answer_request
  answer_request-FailsClean name slot (m, fails fault) h = restored-IsUntouched before m
  answer_request-FailsClean name slot (m, done r) h =
      option_elim (FailsClean before) (controller_at m slot) (λ x. tt)
        (λ c x.
          with_outcome-FailsClean (ask_controller e before m c r name slot)
            (ask_controller-FailsClean m c r name slot h))

  resolve_due-FailsClean :
      (name : String) (slot : ℤ) (x : Match S × Reply DecisionRequest)
      → IsUntouched before x.0
      → FailsClean before (resolve_due e name slot x)
  unfolding resolve_due
  resolve_due-FailsClean name slot (m, fails fault) h = h
  resolve_due-FailsClean name slot (m, done r) h =
      let h' : IsUntouched before (ticked m) = record {
        same_state = h.same_state;
        same_action = h.same_action;
        same_slot = h.same_slot;
      } in
      if_elim (FailsClean before) (ltb (now m) r.deadline) (λ x. h')
        (λ x.
          resolve_terminal-FailsClean (ticked m) r name slot outcome_timeout none "deadline expired"
            h')

  accepted_move-FailsClean :
      (r : DecisionRequest) (name : String) (a : Action) (x : Match S × Reply Unit)
      → FailsClean before x
      → FailsClean before (accepted_move r name a x)
  unfolding accepted_move
  accepted_move-FailsClean r name a (m, fails fault) h = h
  accepted_move-FailsClean r name a (m, done _) h = tt

  submit_due-FailsClean :
      (a : Action) (name : String) (slot : ℤ) (x : Match S × Reply DecisionRequest)
      → IsUntouched before x.0
      → FailsClean before (submit_due e a name slot x)
  unfolding submit_due submit_locked
  submit_due-FailsClean a name slot (m, fails fault) h = h
  submit_due-FailsClean a name slot (m, done r) h =
      let m' = ticked m in
      let h' : IsUntouched before m' = record {
        same_state = h.same_state;
        same_action = h.same_action;
        same_slot = h.same_slot;
      } in
      let d = pos_part a.direction in
      let m₁ = prepare_for m' d in
      if_elim (FailsClean before) (not (ltb (now m) r.deadline))
        (λ x. resolve_terminal-FailsClean m' r name slot outcome_timeout none "deadline expired" h')
        (λ x.
          option_elim (FailsClean before) (validate_action a)
            (λ y.
              if_elim (FailsClean before) (is_resign_kind a.kind)
                (λ z.
                  resolve_terminal-FailsClean m' r name slot outcome_resigned (some a)
                    "human resigned" h')
                (λ z.
                  accepted_move-FailsClean r name a (submit_locked e m' r name a)
                    (accept_move-FailsClean m' m₁ r name a (submit m₁.state d) h')))
            (λ fault y. h'))

  resolve_automated-FailsClean : (first : ℕ) → FailsClean before (resolve_automated e before first)
  unfolding resolve_automated
  resolve_automated-FailsClean first =
      option_elim (FailsClean before) before.state.pending (λ x. tt)
        (λ p x.
          answer_request-FailsClean p.worm_id p.slot
            (request_locked e before p.worm_id p.slot p.request)
            (request-IsUntouched p.worm_id p.slot p.request))

  submit_human-FailsClean : (a : Action) → FailsClean before (submit_human e before a)
  unfolding submit_human
  submit_human-FailsClean a =
      option_elim (FailsClean before) before.state.pending (λ x. IsUntouched-self before)
        (λ p x.
          submit_due-FailsClean a p.worm_id p.slot
            (request_locked e before p.worm_id p.slot p.request)
            (request-IsUntouched p.worm_id p.slot p.request))

  resolve-FailsClean : FailsClean before (resolve e before)
  unfolding resolve
  resolve-FailsClean =
      option_elim (FailsClean before) before.state.pending (λ x. IsUntouched-self before)
        (λ p x.
          resolve_due-FailsClean p.worm_id p.slot
            (request_locked e before p.worm_id p.slot p.request)
            (request-IsUntouched p.worm_id p.slot p.request))

  stop-FailsClean : FailsClean before (stop e before)
  unfolding stop
  stop-FailsClean =
      let s = record before.state { pending = none; game_over = true } in
      let m' = record before { state = s; pending_deadline = 0 } in
      if_elim (FailsClean before) before.state.game_over (λ x. tt)
        (λ x.
          keep_or_restore-FailsClean e before before m'
            (record no_event { kind = "match_stopped" } ∷ []) none "stopped" tt
            (IsUntouched-self before))

  -- When Submit, Resolve, Stop or the answer of a controller in resolveAutomatedLocked fails, also
  -- by an error of the store behind the change, the engine's state and the last action are those
  -- before the call.
  pub match_calls-FailsClean :
      (a : Action) (first : ℕ)
      → FailsClean before (submit_human e before a)
        × FailsClean before (resolve e before)
        × FailsClean before (stop e before)
        × FailsClean before (resolve_automated e before first)
  match_calls-FailsClean a first = (
    submit_human-FailsClean a,
    resolve-FailsClean,
    stop-FailsClean,
    resolve_automated-FailsClean first,
  )
