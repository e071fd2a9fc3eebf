-- ===== src/Match/Adapters.antt =====
-- internal/match/adapters.go: the controllers that wrap a policy. The texts of errors, SHA-256 and the
-- clock are parameters.
pub mod Restore
pub mod Scripts
pub mod Dice
pub mod Tests
use worms_ng.Prelude.{
  Bool, List, Option, String, false, get_elem?, if◌then◌else◌, length, none, some, str_eq, true, ℕ,
  ℤ, ◌%◌, ◌+◌,
}
use worms_ng.Agent.{Credentials, SessionError, SessionManager, err, ok}
use worms_ng.Agent.Policies.{
  Decided, ScriptedPolicy, decided, new_scripted, new_scripted_unchecked, reset, scripted_decide,
  undecided,
}
use worms_ng.Agent.Sessions.{request_decision}
use worms_ng.Match.{Answer, Reply, broke, picked}
use worms_ng.Protocol.{
  Action, DecisionOutcome, DecisionRequest, Fault, OutcomeKind, outcome_accepted,
  outcome_disconnect, outcome_duplicate, outcome_illegal, outcome_malformed, outcome_resigned,
  outcome_stale, outcome_timeout, unknown_outcome, validate_action, validate_request,
}

-- A policy with its memory.
abbrev pub Decider : Type 0 → Type 0
Decider S = S → DecisionRequest → S × Answer

-- `LLMController.Decide`: the answer of the policy is checked.
unfoldable pub check_answer : {S : Type 0} → (Fault → String) → S × Answer → S × Answer
check_answer text_of (s, broke late reason) = (s, broke late reason)
check_answer text_of (s, picked a) = elim (validate_action a) [
  | none ↦ (s, picked a)
  | some fault ↦ (s, broke false (text_of fault))
]

unfoldable pub llm_decide : {S : Type 0} → (Fault → String) → Decider S → Decider S
llm_decide text_of policy s r = check_answer text_of (policy s r)

-- `ExternalController.Decide`: the request is checked.
unfoldable pub external_decide : {S : Type 0} → (Fault → String) → Decider S → Decider S
external_decide text_of decider s r = elim (validate_request r) [
  | some fault ↦ (s, broke false (text_of fault))
  | none ↦ decider s r
]

-- `RandomController`, less its policy, which only `RestoreControllerState` asks.
pub record RandomController : Type 0 where
  pub seed : ℤ
  pub calls : ℕ

-- `RandomController.Decide`; `digest seed id` is the first uint64 of SHA-256 of the text of both.
unfoldable pub random_choose :
    (ℤ → String → ℕ)
    → (Fault → String)
    → RandomController
    → DecisionRequest
    → RandomController × Answer
random_choose digest text_of c r = elim (validate_request r) [
  | some fault ↦ (c, broke false (text_of fault))
  | none ↦
      let legal = r.observation.legal_actions in
      elim (get_elem? legal (digest c.seed r.decision_id % length legal)) [
        | none ↦ (c, broke false "random controller: no legal actions")
        | some a ↦ (record c { calls = c.calls + 1 }, picked a)
      ]
]

-- `ControllerOutcomeError.Error`
abbrev pub kind_name : OutcomeKind → String
kind_name outcome_accepted = "accepted"
kind_name outcome_timeout = "timeout"
kind_name outcome_disconnect = "disconnect"
kind_name outcome_resigned = "resigned"
kind_name outcome_duplicate = "duplicate"
kind_name outcome_stale = "stale"
kind_name outcome_malformed = "malformed"
kind_name outcome_illegal = "illegal"
kind_name (unknown_outcome name) = name

abbrev pub outcome_error : OutcomeKind → String → String
outcome_error kind reason = if str_eq reason "" then kind_name kind else reason

-- Whether a match takes the error for a timeout.
abbrev pub is_timeout : OutcomeKind → Bool
is_timeout outcome_timeout = true
is_timeout k = false

-- `SessionController.Decide`: the outcome of the session is the answer.
unfoldable pub answer_outcome :
    (SessionError → String)
    → SessionManager × worms_ng.Agent.Reply DecisionOutcome
    → SessionManager × Answer
answer_outcome text_of (m, err fault) = (m, broke false (text_of fault))
answer_outcome text_of (m, ok o) = elim o.action [
  | some a ↦ (m, picked a)
  | none ↦ (m, broke (is_timeout o.outcome) (outcome_error o.outcome o.reason))
]

unfoldable pub session_decide :
    (SessionError → String)
    → Credentials
    → (DecisionRequest → worms_ng.Agent.Sessions.Answer)
    → Decider SessionManager
session_decide text_of c policy m r = answer_outcome text_of (request_decision m c r (policy r))

-- `ScriptedController`
pub record ScriptedController : Type 0 where
  pub policy : ScriptedPolicy
  pub actions : List Action
  pub calls : ℕ

-- `NewScriptedControllerUnchecked`, and `NewScriptedController` behind its check.
abbrev pub new_script_unchecked : List Action → ScriptedController
new_script_unchecked actions = record {
  policy = new_scripted_unchecked actions;
  actions = actions;
  calls = 0;
}

unfoldable pub new_script : List Action → Option ScriptedController
new_script actions = elim (new_scripted actions) [
  | decided p ↦ some (record { policy = p; actions = actions; calls = 0 })
  | undecided fault ↦ none
]

-- `ScriptedController.Decide`: an answer counts.
unfoldable pub count_call :
    ScriptedController → ScriptedPolicy × Decided Action → ScriptedController × Decided Action
count_call c (p, decided a) = (record c { policy = p; calls = c.calls + 1 }, decided a)
count_call c (p, undecided fault) = (record c { policy = p }, undecided fault)

unfoldable pub script_decide :
    ScriptedController → DecisionRequest → ScriptedController × Decided Action
script_decide c r = count_call c (scripted_decide c.policy r)

unfoldable pub reset_script : ScriptedController → ScriptedController
reset_script c = record c { policy = reset c.policy; calls = 0 }
