-- ===== src/Protocol/Sample.antt =====
-- An observation and a request of the protocol, on which the theorems are applied.
use worms_ng.Prelude.{[], false, is_blank, none, pos, refl, ℕ, ℤ, ◌∷◌, ◌≡◌}
use worms_ng.Protocol.{
  Action, DecisionRequest, Neighbor, Observation, action_move, action_resign, check_actions,
  check_neighbors, check_position, check_trail_states, contains_position, missing_from, trail_empty,
  trail_other, trail_own, validate_action, validate_bounds, validate_observation, validate_request,
}

abbrev pub beside : ℕ → ℤ → ℤ → Neighbor
beside d x y = record { direction = pos d; position = record { x = x; y = y }; occupied = false }

abbrev pub go_east : Action
go_east = record { kind = action_move; direction = pos 0 }

abbrev pub give_up : Action
give_up = record { kind = action_resign; direction = pos 0 }

abbrev pub view : Observation
view = record {
  version = "v1";
  game_id = "game";
  worm_id = "a";
  worm_instance_id = "";
  decision_id = "d1";
  tick = 3;
  position = record { x = pos 2; y = pos 2 };
  orientation = pos 1;
  neighbors =
      beside 0 (pos 3) (pos 2)
      ∷ beside 3 (pos 1) (pos 2)
      ∷ beside 1 (pos 2) (pos 3)
      ∷ beside 2 (pos 1) (pos 3)
      ∷ beside 5 (pos 2) (pos 1)
      ∷ beside 4 (pos 1) (pos 1)
      ∷ [];
  trail_states =
      trail_empty ∷ trail_own ∷ trail_other ∷ trail_empty ∷ trail_empty ∷ trail_empty ∷ [];
  legal_actions = go_east ∷ give_up ∷ [];
  scores = [];
  mode = "classic";
  deadline = 0;
  brain_id = "";
  brain_version = "";
  pattern_key = "k";
  provenance = [];
}

abbrev pub request : DecisionRequest
request = record { version = "v1"; decision_id = "d1"; observation = view; deadline = 100 }

pub request-valid : validate_request request ≡ none
unfolding validate_request validate_observation validate_bounds check_position contains_position
    check_neighbors missing_from check_trail_states check_actions validate_action is_blank
request-valid = refl
