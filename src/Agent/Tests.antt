-- ===== src/Agent/Tests.antt =====
-- The theorems of the session manager at work on one game.
use worms_ng.Prelude.{
  [], arith, is_blank, lookup, none, pos, refl, some, string_eq, true, ◌-ℤ◌, ◌∷◌, ◌≡◌, ◌⊎◌,
}
use worms_ng.Agent.{
  Credentials, Policy, Session, SessionManager, authorize, copy_scores, err, log_locked, ok,
  record_entry, resolve_locked, unauthorized, unknown_session, write_all,
}
use worms_ng.Agent.Answers.{Contract, submit_decision-Contract}
use worms_ng.Agent.Closed.{close_session-refuses}
use worms_ng.Agent.Policies.{ScriptedPolicy, new_scripted_unchecked}
use worms_ng.Agent.Reach.{Reach, Reach-validate_outcome, begins, here, next, starts, submits}
use worms_ng.Agent.Repeat.{submit_decision-twice}
use worms_ng.Agent.Requests.{request_decision-answers}
use worms_ng.Agent.Sessions.{
  answer_pending, begin_decision, begin_filled, chosen, close_session, duplicate_of, fill_deadline,
  is_legal, new_session, new_session_manager, open_session, publish, request_decision,
  request_refusal, start_session, submit_decision, submit_valid,
}
use worms_ng.Protocol.{
  DecisionOutcome, DecisionResponse, check_actions, check_neighbors, check_position,
  check_trail_states, contains_position, missing_from, outcome_accepted, validate_action,
  validate_bounds, validate_observation, validate_outcome, validate_request, validate_response,
}
use worms_ng.Protocol.Sample.{give_up, go_east, request}

abbrev bot : Policy
bot = record { name = "bot"; provenance = none }

abbrev key : Credentials
key = record { game_id = "game"; token = "secret" }

abbrev fresh : SessionManager
fresh = new_session_manager (pos 0) (λ n. n) (λ f. "refused")

abbrev opened : SessionManager
opened = (start_session fresh "game" "a" (some bot) (some "secret")).0

abbrev asked : SessionManager
asked = (begin_decision opened key request).0

abbrev answer : DecisionResponse
answer = record { version = "v1"; decision_id = "d1"; action = go_east }

abbrev answered : SessionManager
answered = (submit_decision asked key answer).0

abbrev accepted : DecisionOutcome
accepted = record {
  version = "v1";
  game_id = "game";
  worm_id = "a";
  decision_id = "d1";
  outcome = outcome_accepted;
  action = some go_east;
  at = 5;
  reason = "";
}

abbrev started : Session
started = new_session "game" "a" bot "secret"

abbrev done : Session
done = record started { resolved = ("d1", accepted) ∷ [] }

session_run : Reach fresh answered
session_run =
    next
      (next (next here (starts fresh "game" "a" (some bot) (some "secret")))
        (begins opened key request))
      (submits asked key answer)

done-stored : lookup "game" answered.sessions ≡ some done
unfolding submit_decision authorize begin_decision start_session open_session new_session_manager
    begin_filled request_refusal validate_request fill_deadline validate_observation validate_bounds
    check_position contains_position check_neighbors missing_from check_trail_states answer_pending
    is_legal publish submit_valid copy_scores log_locked record_entry resolve_locked write_all ◌-ℤ◌
    is_blank check_actions validate_action validate_response
done-stored = refl

Reach-validate_outcome_example :
    (validate_outcome accepted ≡ none)
    × (accepted.game_id ≡ "game")
    × (accepted.worm_id ≡ done.worm_id)
    × (accepted.decision_id ≡ "d1")
Reach-validate_outcome_example =
    Reach-validate_outcome (pos 0) (λ n. n) (λ f. "refused") answered "game" "d1" done accepted
      session_run done-stored refl

submit_decision-Contract_example : Contract asked key answer (submit_decision asked key answer)
submit_decision-Contract_example = submit_decision-Contract asked key answer

submit_decision-accepts : submit_decision asked key answer ≡ (answered, ok accepted)
unfolding submit_decision authorize begin_decision start_session open_session new_session_manager
    begin_filled request_refusal validate_request fill_deadline validate_observation validate_bounds
    check_position contains_position check_neighbors missing_from check_trail_states answer_pending
    is_legal publish submit_valid copy_scores log_locked record_entry resolve_locked write_all ◌-ℤ◌
    is_blank check_actions validate_action validate_response
submit_decision-accepts = refl

answer-valid : validate_response answer ≡ none
unfolding validate_response validate_action is_blank
answer-valid = refl

submit_decision-twice_example :
    ((submit_decision answered key answer).1 ≡ ok (duplicate_of accepted))
    × ((submit_decision answered key answer).0.sessions ≡ answered.sessions)
submit_decision-twice_example =
    submit_decision-twice asked answered key answer answer accepted submit_decision-accepts refl
      answer-valid refl

opened-key : authorize opened key ≡ ok started
unfolding authorize start_session open_session new_session_manager
opened-key = refl

abbrev calm : SessionManager
calm = record opened { clock = λ n. 7 }

calm-key : authorize calm key ≡ ok started
unfolding authorize start_session open_session new_session_manager
calm-key = refl

request-fine : request_refusal calm "game" started request ≡ none
unfolding submit_decision authorize begin_decision start_session open_session new_session_manager
    begin_filled request_refusal validate_request fill_deadline validate_observation validate_bounds
    check_position contains_position check_neighbors missing_from check_trail_states answer_pending
    is_legal publish submit_valid copy_scores log_locked record_entry resolve_locked write_all ◌-ℤ◌
    is_blank check_actions validate_action validate_response
request-fine = refl

east-legal : is_legal go_east request.observation.legal_actions ≡ true
unfolding is_legal
east-legal = refl

close_session-refuses_example :
    let m = (submit_decision (close_session opened key).0 key answer).0 in
    (submit_decision m key answer ≡ (m, err unknown_session))
    ⊎ (submit_decision m key answer ≡ (m, err unauthorized))
close_session-refuses_example =
    close_session-refuses opened (submit_decision (close_session opened key).0 key answer).0 key key
      started answer opened-key (next here (submits (close_session opened key).0 key answer)) refl

request_decision-answers_example :
    (o : DecisionOutcome) × (((request_decision calm key request (chosen go_east)).1 ≡ ok o)
      × (o.action ≡ some go_east)
      × (o.decision_id ≡ "d1")
      × (o.outcome ≡ outcome_accepted))
request_decision-answers_example =
    request_decision-answers calm key started request go_east calm-key refl refl request-fine
      east-legal (λ n. omega arith)

abbrev script_one : ScriptedPolicy
script_one = new_scripted_unchecked (go_east ∷ give_up ∷ [])
