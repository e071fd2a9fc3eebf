-- ===== src/Agent/Policies.antt =====
-- internal/agent/policy.go: the scripted and the random policy. What the random source returns is
-- an argument.
use worms_ng.Prelude.{
  Bool, List, Option, String, [], ap, arith, false, get_elem?, if_elim, if◌then◌else◌, length, map,
  none, not, option_elim, refl, some, str_eq, str_eq_self, suc, true, zero, ℕ, ◌&&◌, ◌<◌, ◌∙◌, ◌∷◌,
  ◌≡◌,
}
use worms_ng.Agent.Sessions.{action_eq, is_legal, kind_eq}
use worms_ng.Protocol.{
  Action, ActionKind, DecisionRequest, Fault, action_move, action_resign, check_actions,
  unknown_action, validate_action, validate_observation, validate_request,
}

pub record ScriptStep : Type 0 where
  pub expected_pattern_key : String
  pub action : Action

pub record ScriptedPolicy : Type 0 where
  pub actions : List Action
  pub expected : List String
  pub index : ℕ
  pub name : String

pub data PolicyError : Type 0 where
  invalid_request invalid_action invalid_script : Fault → PolicyError
  exhausted pattern_mismatch illegal : PolicyError

pub data Decided (A : Type 0) : Type 0 where
  decided : A → Decided A
  undecided : PolicyError → Decided A

-- `NewScriptedPolicyWithKeys`
unfoldable pub script_fault : List ScriptStep → Option Fault
script_fault [] = none
script_fault (step ∷ steps) =
    let rest = script_fault steps in
    elim (validate_action step.action) [ none ↦ rest | some fault ↦ some fault ]

abbrev pub script : List ScriptStep → ScriptedPolicy
script steps = record {
  actions = map (λ s. s.action) steps;
  expected = map (λ s. s.expected_pattern_key) steps;
  index = 0;
  name = "scripted";
}

unfoldable pub new_scripted_with_keys : List ScriptStep → Decided ScriptedPolicy
new_scripted_with_keys steps = elim (script_fault steps) [
  | none ↦ decided (script steps)
  | some fault ↦ undecided (invalid_script fault)
]

-- `NewScriptedPolicyUnchecked`, and `NewScriptedPolicy` behind its check.
unfoldable pub new_scripted_unchecked : List Action → ScriptedPolicy
new_scripted_unchecked actions = record {
  actions = actions;
  expected = [];
  index = 0;
  name = "scripted";
}

unfoldable pub new_scripted : List Action → Decided ScriptedPolicy
new_scripted actions = elim (check_actions actions) [
  | none ↦ decided (new_scripted_unchecked actions)
  | some fault ↦ undecided (invalid_script fault)
]

-- `p.index < len(p.expected) && p.expected[p.index] != "" && p.expected[p.index] != key`
unfoldable pub key_differs : Option String → String → Bool
key_differs none key = false
key_differs (some e) key = not (str_eq e "") && not (str_eq e key)

-- `ScriptedPolicy.Decide`, with the policy behind it.
unfoldable pub scripted_decide : ScriptedPolicy → DecisionRequest → ScriptedPolicy × Decided Action
scripted_decide p r = elim (validate_request r) [
  | some fault ↦ (p, undecided (invalid_request fault))
  | none ↦ elim (get_elem? p.actions p.index) [
    | none ↦ (p, undecided exhausted)
    | some a ↦
        if key_differs (get_elem? p.expected p.index) r.observation.pattern_key
        then (p, undecided pattern_mismatch)
        else elim (validate_action a) [
          | some fault ↦ (p, undecided (invalid_action fault))
          | none ↦
              if is_legal a r.observation.legal_actions
              then (p, decided a)
              else (p, undecided illegal)
        ]
  ]
]

-- `Reset`
unfoldable pub reset : ScriptedPolicy → ScriptedPolicy
reset p = record p { index = 0 }

-- `RandomPolicy.Decide`; `draw n` is what `rng.IntN(n)` returns. An index that is out of range,
-- where Go panics, is `exhausted`.
unfoldable pub random_decide : (ℕ → ℕ) → DecisionRequest → Decided Action
random_decide draw r = elim (validate_request r) [
  | some fault ↦ undecided (invalid_request fault)
  | none ↦
      let legal = r.observation.legal_actions in
      elim (get_elem? legal (draw (length legal))) [
        | none ↦ undecided exhausted
        | some a ↦ decided a
      ]
]

-- What an answer of the script is: its action in turn, legal for the request, and the same turn is
-- up again.
pub Answers : ScriptedPolicy → DecisionRequest → ScriptedPolicy × Decided Action → Type 0
Answers p r (p', undecided e) = p' ≡ p
Answers p r (p', decided a) =
    (p' ≡ p)
    × (get_elem? p.actions p.index ≡ some a)
    × (is_legal a r.observation.legal_actions ≡ true)

-- What the scripted policy returns is the action at its index, which is legal for the request, and
-- the policy stays as it was.
pub scripted_decide-Answers :
    (p : ScriptedPolicy) (r : DecisionRequest) → Answers p r (scripted_decide p r)
unfolding scripted_decide Answers
scripted_decide-Answers p r =
    option_elim (Answers p r) (validate_request r)
      (λ valid.
        option_elim (Answers p r) (get_elem? p.actions p.index) (λ e. refl)
          (λ a found.
            if_elim (Answers p r)
              (key_differs (get_elem? p.expected p.index) r.observation.pattern_key) (λ e. refl)
              (λ same.
                option_elim (Answers p r) (validate_action a)
                  (λ fine.
                    if_elim (Answers p r) (is_legal a r.observation.legal_actions)
                      (λ legal. (refl, found, legal)) (λ e. refl))
                  (λ fault e. refl))))
      (λ fault e. refl)

kind_eq_self : (k : ActionKind) → kind_eq k k ≡ true
kind_eq_self action_move = refl
kind_eq_self action_resign = refl
kind_eq_self (unknown_action k) = str_eq_self k

action_eq_self : (a : Action) → action_eq a a ≡ true
action_eq_self a = ground (arith, kind_eq_self a.kind)

is_legal-get :
    (legal : List Action) (i : ℕ) (a : Action)
    → get_elem? legal i ≡ some a
    → is_legal a legal ≡ true
unfolding is_legal
is_legal-get [] i a h = cc
is_legal-get (b ∷ legal) zero a h =
    let same : b ≡ a = ground arith in
    let head : action_eq b a ≡ true = ap (λ x. action_eq x a) same ∙ action_eq_self a in
    rw head refl
is_legal-get (b ∷ legal) (suc i) a h = ground (arith, is_legal-get legal i a h)

get_below : {A : Type 0} (xs : List A) (i : ℕ) → i < length xs → (a : A) × (get_elem? xs i ≡ some a)
get_below [] i h = absurd (omega (arith, h))
get_below (x ∷ xs) zero h = (x, refl)
get_below (x ∷ xs) (suc i) h = get_below xs i (omega (arith, h))

has_actions :
    (r : DecisionRequest) → validate_request r ≡ none → 0 < length r.observation.legal_actions
unfolding validate_request validate_observation
has_actions r h = ground arith

-- The random policy answers a valid request with one of its legal actions.
pub random_decide-legal :
    (draw : ℕ → ℕ) (r : DecisionRequest)
    → ((n : ℕ) → 0 < n → draw n < n)
    → validate_request r ≡ none
    → (a : Action) × ((random_decide draw r ≡ decided a)
        × (is_legal a r.observation.legal_actions ≡ true))
unfolding random_decide
random_decide-legal draw r below valid =
    let legal = r.observation.legal_actions in
    let found =
      get_below legal (draw (length legal)) (below (length legal) (has_actions r valid)) in
    (found.0, (rw (valid, random_decide) (rw (found.1) refl), is_legal-get legal _ found.0 found.1))
