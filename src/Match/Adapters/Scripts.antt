-- ===== src/Match/Adapters/Scripts.antt =====
-- What the random controller answers, and which scripts can be restored.
use native.Mathlib.Nat.{mod-lt}
use worms_ng.Prelude.{
  All, Bool, List, String, [], ap, arith, false, get_elem?, get_elem?-lt, if◌then◌else◌, is_blank,
  length, none, option_elim, pos, refl, some, str_eq_self, subst, suc, sym, true, zero, ℕ, ℤ, ◌%◌,
  ◌+◌, ◌<◌, ◌||◌, ◌↔◌, ◌∙◌, ◌∷◌, ◌≡◌, ◌≢◌,
}
use worms_ng.Agent.Policies.{
  Decided, ScriptedPolicy, decided, illegal, key_differs, new_scripted_unchecked, reset,
  scripted_decide, undecided,
}
use worms_ng.Agent.Sessions.{action_eq, is_legal}
use worms_ng.Match.{Answer, broke, picked}
use worms_ng.Match.Adapters.{
  RandomController, ScriptedController, new_script_unchecked, random_choose, reset_script,
}
use worms_ng.Match.Adapters.Restore.{
  Rehearsal, restore_calls, restore_request, restore_script, take_call,
}
use worms_ng.Protocol.{
  Action, DecisionRequest, Fault, check_actions, check_neighbors, check_position,
  check_trail_states, contains_position, default_bounds, missing_from, validate_action,
  validate_bounds, validate_observation, validate_request,
}
use worms_ng.Protocol.Valid.{Conforms, validate_observation_iff}

-- The answer is one of the legal actions of the request, and the call is counted.
abbrev pub ChoosesLegal : RandomController → DecisionRequest → RandomController × Answer → Type 0
ChoosesLegal c r (c', broke late reason) = ⊥
ChoosesLegal c r (c', picked a) =
    ((i : ℕ) × (get_elem? r.observation.legal_actions i ≡ some a))
    × (c' ≡ record c { calls = c.calls + 1 })

-- A request that passes its check has a legal action.
request-observation :
    (r : DecisionRequest)
    → validate_request r ≡ none
    → validate_observation default_bounds r.observation ≡ none
unfolding validate_request
request-observation r h = ground arith

request-some_legal :
    (r : DecisionRequest) → validate_request r ≡ none → 0 < length r.observation.legal_actions
unfolding Conforms
request-some_legal r h =
    let fine =
      (validate_observation_iff default_bounds r.observation).0 (request-observation r h) in
    some_action r.observation.legal_actions fine.13
  where
    some_action : (actions : List Action) → actions ≢ [] → 0 < length actions
    some_action [] ne = absurd (ne refl)
    some_action (a ∷ actions) ne = omega arith

-- For every digest, RandomController.Decide answers a request that passes its Validate with one of
-- the legal actions of the request, and counts the call.
pub random_choose-ChoosesLegal :
    (digest : ℤ → String → ℕ) (text_of : Fault → String) (c : RandomController)
    (r : DecisionRequest)
    → validate_request r ≡ none
    → ChoosesLegal c r (random_choose digest text_of c r)
unfolding random_choose
random_choose-ChoosesLegal digest text_of c r valid =
    let legal = r.observation.legal_actions in
    let i = digest c.seed r.decision_id % length legal in
    let (a, there) =
      get_elem?-lt legal i (mod-lt (digest c.seed r.decision_id) (request-some_legal r valid)) in
    option_elim (ChoosesLegal c r) (validate_request r)
      (λ e.
        option_elim (ChoosesLegal c r) (get_elem? legal i) (λ gone. cc)
          (λ b found. ((i, found), refl)))
      (λ fault e. cc)

-- The actions from some call on repeat the action `a`.
abbrev pub Repeats : Action → ℕ → List Action → Type 0
Repeats a zero actions = Unit
Repeats a (suc left) [] = ⊥
Repeats a (suc left) (b ∷ actions) = (action_eq b a ≡ true) × Repeats a left actions

module _ (h : Rehearsal) (named : (i : ℕ) → is_blank (h.name i) ≡ false)
    (later : h.deadline ≢ 0) where
  restore_observation-valid :
      (i : ℕ) (b : Action)
      → validate_action b ≡ none
      → validate_observation default_bounds
          (restore_request h.deadline (h.name i) (b ∷ [])).observation
        ≡ none
  unfolding validate_observation check_actions check_neighbors check_position check_trail_states
      validate_bounds contains_position missing_from
  restore_observation-valid i b valid = rw (named i, valid) refl

  -- The request that one stored call asks for is a valid one, for a valid action.
  restore_request-valid :
      (i : ℕ) (b : Action)
      → validate_action b ≡ none
      → validate_request (restore_request h.deadline (h.name i) (b ∷ [])) ≡ none
  unfolding validate_request
  restore_request-valid i b valid =
      ground (arith, named i, str_eq_self (h.name i), restore_observation-valid i b valid)

  -- The script answers with its first action, if that is the one that is asked for.
  script_answers :
      (i : ℕ) (a b : Action) (actions : List Action)
      → validate_action a ≡ none
      → validate_action b ≡ none
      → scripted_decide
          (new_scripted_unchecked (a ∷ actions))
          (restore_request h.deadline (h.name i) (b ∷ []))
        ≡ (
          new_scripted_unchecked (a ∷ actions),
          (if action_eq b a then decided a else undecided illegal),
        )
  unfolding new_scripted_unchecked is_legal scripted_decide key_differs
  script_answers i a b actions fine fine' =
      rw (restore_request-valid i b fine', scripted_decide)
        (rw (fine, key_differs) (decide (action_eq b a)))
    where
      decide :
          (test : Bool)
          → ◌≡◌ {A = ScriptedPolicy × Decided Action}
              (if test || false
                then (new_scripted_unchecked (a ∷ actions), decided a)
                else (new_scripted_unchecked (a ∷ actions), undecided illegal))
              (
                new_scripted_unchecked (a ∷ actions),
                (if test then decided a else undecided illegal),
              )
      decide true = refl
      decide false = refl

-- Whether there was no error.
abbrev pub Succeeds : {A : Type 0} → A × Bool → Type 0
Succeeds (c, false) = ⊥
Succeeds (c, true) = Unit

abbrev pub AllValid : List Action → Type 0
AllValid actions = All (λ a. validate_action a ≡ none) actions

module _ (h : Rehearsal) (named : (i : ℕ) → is_blank (h.name i) ≡ false) (later : h.deadline ≢ 0)
    (a : Action) (script : List Action) (fine : AllValid (a ∷ script)) where
  restore_calls_iff :
      (left i : ℕ) (actions : List Action) (c : ScriptedController)
      → c.policy ≡ new_scripted_unchecked (a ∷ script)
      → AllValid actions
      → Succeeds (restore_calls h left i actions c) ↔ Repeats a left actions
  unfolding restore_calls take_call
  restore_calls_iff zero i actions c same valid = (λ s. tt, λ s. tt)
  restore_calls_iff (suc left) i [] c same valid = (λ s. s, λ s. s)
  restore_calls_iff (suc left) i (b ∷ actions) c same valid =
      let r = restore_request h.deadline (h.name i) (b ∷ []) in
      let p = new_scripted_unchecked (a ∷ script) in
      let answer : scripted_decide c.policy r
          ≡ (p, (if action_eq b a then decided a else undecided illegal)) =
        ap (λ (x : ScriptedPolicy). scripted_decide x r) same
        ∙ script_answers h named later i a b script fine.0 valid.0 in
      let c' = record c { policy = p; calls = c.calls + 1 } in
      let k = restore_calls h left (suc i) actions in
      subst
        (λ (x : ScriptedPolicy × Decided Action).
          Succeeds (take_call k c x) ↔ (action_eq b a ≡ true) × Repeats a left actions)
        (sym answer)
        (step k c (action_eq b a) (restore_calls_iff left (suc i) actions c' refl valid.1))
    where
      step :
          (k : ScriptedController → ScriptedController × Bool) (c : ScriptedController)
          (test : Bool)
          → Succeeds
              (k (record c { policy = new_scripted_unchecked (a ∷ script); calls = c.calls + 1 }))
            ↔ Repeats a left actions
          → Succeeds (
              take_call k c (
                new_scripted_unchecked (a ∷ script),
                (if test then decided a else undecided illegal),
              ))
            ↔ (test ≡ true) × Repeats a left actions
      step k c true ih = (λ s. (refl, ih.0 s), λ s. ih.1 s.1)
      step k c false ih = (λ s. absurd s, λ s. cc)

  -- For a script with a first action, all of whose actions are valid, where the decision IDs of
  -- the replay are not blank and its deadline is not the zero time: RestoreControllerState of a
  -- stored number of calls, whatever number is counted before, succeeds exactly when the script
  -- has that many actions and each of them equals the first.
  pub restore_script_iff :
      (n calls : ℕ)
      → Succeeds (
          restore_script h
            (some (pos n))
            (record (new_script_unchecked (a ∷ script)) { calls = calls }))
        ↔ Repeats a n (a ∷ script)
  unfolding restore_script reset_script reset new_scripted_unchecked
  restore_script_iff n calls =
      restore_calls_iff n 0 (a ∷ script) (new_script_unchecked (a ∷ script)) refl fine
