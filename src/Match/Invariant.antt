-- ===== src/Match/Invariant.antt =====
-- The parts of the operations of a match keep the engine's invariant.
pub mod Calls
use worms_ng.Prelude.{
  List, Option, String, [], get_elem?, if_elim, length, ltb, negsuc, none, not, option_elim, pos,
  pos_part, some, update, ℕ, ℤ, ◌&&◌, ◌==◌, ◌∷◌,
}
use worms_ng.Engine.Moves.WellFormed.{WellFormed}
use worms_ng.Engine.Observe.{observe}
use worms_ng.Engine.Sample.{asked}
use worms_ng.Engine.Turns.{submit}
use worms_ng.Engine.Turns.Invariant.{submit-WellFormed}
use worms_ng.Engine.Types.{Direction, Event, Result, State, err, ok}
use worms_ng.Match.{
  Answer, Controller, Match, Outcome, Reply, World, broke, controller_at, controller_name, done,
  fails, keep_or_restore, now, persist, picked, restore_runtime, status_of, ticked,
}
use worms_ng.Match.Alike.{prepare_same-WellFormed, retire-WellFormed}
use worms_ng.Match.Play.{
  accept_move, accepted_after, count_request, is_resign_kind, outcome_of, prepare_for, request_for,
  request_locked, resolve_terminal, restore_on_error, retire, submit_locked, take_answer,
}
use worms_ng.Match.Rounds.{
  answer_request, ask_controller, awaits, resolve_automated, set_deadline, with_outcome,
}
use worms_ng.Protocol.{
  Action, DecisionRequest, OutcomeKind, outcome_resigned, outcome_timeout, validate_action,
  validate_request,
}
use worms_ng.Protocol.Sample.{request}

module _ {S : Type 0} {A : Type 0} where
  -- What holds of the engine's state that an operation leaves.
  abbrev pub Keeps : Match S × Reply A → Type 0
  Keeps r = WellFormed r.0.state

pub keep_or_restore-Keeps :
    {S A : Type 0} (e : World S) (before m : Match S) (events : List Event) (o : Option Outcome)
    (status : String) (a : A)
    → WellFormed before.state
    → WellFormed m.state
    → Keeps (keep_or_restore e before m events o status a)
unfolding keep_or_restore restore_runtime
keep_or_restore-Keeps e before m events o status a h k =
    option_elim Keeps (persist e m events o status) (λ x. k) (λ reason x. h)

module _ {S : Type 0} (e : World S) where
  pub set_deadline-WellFormed :
      (m : Match S) → WellFormed m.state → WellFormed (set_deadline m).state
  unfolding set_deadline
  set_deadline-WellFormed m h =
      if_elim (λ (x : Match S). WellFormed x.state) (awaits m.state && m.pending_deadline == 0)
        (λ x. h) (λ x. h)

  count_request-WellFormed : (m : Match S) → WellFormed m.state → WellFormed (count_request m).state
  unfolding count_request
  count_request-WellFormed m h =
      if_elim (λ (x : Match S). WellFormed x.state) (m.pending_deadline == 0) (λ x. h) (λ x. h)

  pub request-Keeps :
      (m : Match S) (name : String) (slot : ℤ) (n : ℕ)
      → WellFormed m.state
      → Keeps (request_locked e m name slot n)
  unfolding request_locked
  request-Keeps m name (negsuc i) n h =
      option_elim Keeps (observe m.state name) (λ x. h) (λ obs x. count_request-WellFormed m h)
  request-Keeps m name (pos i) n h =
      let k = count_request-WellFormed m h in
      option_elim Keeps (observe m.state name) (λ x. h)
        (λ obs x.
          option_elim Keeps (get_elem? m.state.worms i) (λ y. k)
            (λ w y.
              option_elim Keeps
                (validate_request
                  (request_for e (count_request m) (e.numbered m.game_id (pos n)) (pos i) w obs))
                (λ z. k) (λ fault z. k)))

  pub resolve_terminal-Keeps :
      (m : Match S) (r : DecisionRequest) (name : String) (slot : ℤ) (kind : OutcomeKind)
      (action : Option Action) (reason : String)
      → WellFormed m.state
      → Keeps (resolve_terminal e m r name slot kind action reason)
  unfolding resolve_terminal
  resolve_terminal-Keeps m r name (negsuc i) kind action reason h = h
  resolve_terminal-Keeps m r name (pos i) kind action reason h =
      let m' = record m { state = retire m.state i; pending_deadline = 0 } in
      let o =
        outcome_of m' r name kind action reason (("controller", controller_name m (pos i)) ∷ []) in
      let m'' = ticked m' in
      if_elim Keeps (ltb i (length m.state.worms))
        (λ x.
          keep_or_restore-Keeps e m m'' [] (some o) (status_of m'') o h
            (retire-WellFormed m.state i h))
        (λ x. h)

  prepare_for-WellFormed :
      (m : Match S) (d : Direction) → WellFormed m.state → WellFormed (prepare_for m d).state
  unfolding prepare_for
  prepare_for-WellFormed m d h =
      if_elim WellFormed m.has_store (λ x. h) (λ x. prepare_same-WellFormed (some d) m.state h)

  accept_move-Keeps :
      (before m : Match S) (r : DecisionRequest) (name : String) (a : Action)
      (x : State × Result (List Event))
      → WellFormed before.state
      → WellFormed x.0
      → Keeps (accept_move e before m r name a x)
  unfolding accept_move restore_runtime
  accept_move-Keeps before m r name a (s, err fault) h k = h
  accept_move-Keeps before m r name a (s, ok events) h k =
      keep_or_restore-Keeps e before _ _ _ _ tt h k

  pub submit_locked-Keeps :
      (m : Match S) (r : DecisionRequest) (name : String) (a : Action)
      → WellFormed m.state
      → Keeps (submit_locked e m r name a)
  unfolding submit_locked
  submit_locked-Keeps m r name a h =
      let d = pos_part a.direction in
      let m' = prepare_for m d in
      accept_move-Keeps m m' r name a (submit m'.state d) h
        (submit-WellFormed m'.state d (prepare_for-WellFormed m d h))

  restored-Keeps :
      {A : Type 0} (before : Match S) (x : Match S × Reply A)
      → WellFormed before.state
      → Keeps x
      → Keeps (restore_on_error before x)
  unfolding restore_on_error restore_runtime
  restored-Keeps before (m, done a) h k = k
  restored-Keeps before (m, fails fault) h k = h

  accepted_after-Keeps :
      (before : Match S) (c : Controller S) (r : DecisionRequest) (name : String) (a : Action)
      (x : Match S × Reply Unit)
      → WellFormed before.state
      → Keeps x
      → Keeps (accepted_after before c r name a x)
  unfolding accepted_after restore_runtime
  accepted_after-Keeps before c r name a (m, done _) h k = k
  accepted_after-Keeps before c r name a (m, fails fault) h k = h

  take_answer-Keeps :
      (before m : Match S) (c : Controller S) (r : DecisionRequest) (name : String) (slot : ℤ)
      (x : Answer)
      → WellFormed before.state
      → WellFormed m.state
      → Keeps (take_answer e before m c r name slot x)
  unfolding take_answer
  take_answer-Keeps before m c r name slot (broke late reason) h k =
      restored-Keeps before _ h (resolve_terminal-Keeps m r name slot _ none reason k)
  take_answer-Keeps before m c r name slot (picked a) h k =
      option_elim Keeps (validate_action a)
        (λ x.
          if_elim Keeps (is_resign_kind a.kind)
            (λ y. restored-Keeps before _ h (
              resolve_terminal-Keeps m r name slot outcome_resigned (some a) "controller resigned"
                k))
            (λ y.
              accepted_after-Keeps before c r name a (submit_locked e m r name a) h
                (submit_locked-Keeps m r name a k)))
        (λ fault x. k)

  ask_controller-Keeps :
      (before m : Match S) (c : Controller S) (r : DecisionRequest) (name : String) (slot : ℤ)
      → WellFormed before.state
      → WellFormed m.state
      → Keeps (ask_controller e before m c r name slot)
  unfolding ask_controller
  ask_controller-Keeps before m c r name slot h k =
      let asked = c.decide (m.memory (pos_part slot)) r in
      let m' = record m { memory = update m.memory (pos_part slot) asked.0 } in
      if_elim Keeps (not (ltb (now m') r.deadline))
        (λ x.
          restored-Keeps before
            (resolve_terminal e (ticked m') r name slot outcome_timeout none "deadline expired") h
            (resolve_terminal-Keeps (ticked m') r name slot outcome_timeout none "deadline expired"
              k))
        (λ x. take_answer-Keeps before (ticked m') c r name slot asked.1 h k)

  with_outcome-Keeps : (x : Match S × Reply Outcome) → Keeps x → Keeps (with_outcome x)
  unfolding with_outcome
  with_outcome-Keeps (m, done o) h = h
  with_outcome-Keeps (m, fails fault) h = h

  answer_request-Keeps :
      (before : Match S) (name : String) (slot : ℤ) (x : Match S × Reply DecisionRequest)
      → WellFormed before.state
      → Keeps x
      → Keeps (answer_request e before name slot x)
  unfolding answer_request restore_runtime
  answer_request-Keeps before name slot (m, fails fault) h k = h
  answer_request-Keeps before name slot (m, done r) h k =
      option_elim Keeps (controller_at m slot) (λ x. k)
        (λ c x.
          with_outcome-Keeps (ask_controller e before m c r name slot)
            (ask_controller-Keeps before m c r name slot h k))

  pub resolve_automated-Keeps :
      (m : Match S) (first : ℕ) → WellFormed m.state → Keeps (resolve_automated e m first)
  unfolding resolve_automated
  resolve_automated-Keeps m first h =
      option_elim Keeps m.state.pending (λ x. h)
        (λ p x.
          answer_request-Keeps m p.worm_id p.slot (request_locked e m p.worm_id p.slot p.request) h
            (request-Keeps m p.worm_id p.slot p.request h))
