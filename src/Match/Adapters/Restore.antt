-- ===== src/Match/Adapters/Restore.antt =====
-- The restoring of controllers in internal/match/adapters.go, by a replay of their calls.
use worms_ng.Prelude.{
  Bool, List, Option, String, [], eq_ℤ, false, if◌then◌else◌, map, negsuc, none, pos, some, suc,
  true, zero, ℕ, ℤ, ◌+◌, ◌∷◌,
}
use worms_ng.Agent.Policies.{
  Decided, ScriptedPolicy, decided, random_decide, scripted_decide, undecided,
}
use worms_ng.Match.Adapters.{RandomController, ScriptedController, reset_script}
use worms_ng.Protocol.{Action, DecisionRequest, Position, action_move, schema_version, trail_empty}

abbrev pub at_one : Position
at_one = record { x = pos 1; y = pos 1 }

-- `restoreRequest`
abbrev pub restore_request : ℕ → String → List Action → DecisionRequest
restore_request deadline id legal = record {
  version = schema_version;
  decision_id = id;
  observation = record {
    version = schema_version;
    game_id = "restore";
    worm_id = "restore";
    worm_instance_id = "";
    decision_id = id;
    tick = 0;
    position = at_one;
    orientation = pos 0;
    neighbors =
        map (λ d. record { direction = pos d; position = at_one; occupied = false })
          (0 ∷ 1 ∷ 2 ∷ 3 ∷ 4 ∷ 5 ∷ []);
    trail_states =
        trail_empty ∷ trail_empty ∷ trail_empty ∷ trail_empty ∷ trail_empty ∷ trail_empty ∷ [];
    legal_actions = legal;
    scores = [];
    mode = "restore";
    deadline = deadline;
    brain_id = "";
    brain_version = "";
    pattern_key = "";
    provenance = [];
  };
  deadline = deadline;
}

-- What `RestoreControllerState` asks with: the deadline, and the text `"restore:%d"`.
pub record Rehearsal : Type 0 where
  pub deadline : ℕ
  pub name : ℕ → String

-- A call that the policy answers is counted; one that it refuses is an error.
unfoldable pub take_call :
    (ScriptedController → ScriptedController × Bool)
    → ScriptedController
    → ScriptedPolicy × Decided Action
    → ScriptedController × Bool
take_call k c (p, decided a) = k (record c { policy = p; calls = c.calls + 1 })
take_call k c (p, undecided fault) = (record c { policy = p }, false)

-- The loop of `RestoreControllerState`, for `left` more calls; the actions are those from `i` on.
-- The result is what the controller has become, and whether there was no error.
unfoldable pub restore_calls :
    Rehearsal → ℕ → ℕ → List Action → ScriptedController → ScriptedController × Bool
restore_calls h zero i actions c = (c, true)
restore_calls h (suc left) i [] c = (c, false)
restore_calls h (suc left) i (a ∷ actions) c =
    take_call (restore_calls h left (suc i) actions) c
      (scripted_decide c.policy (restore_request h.deadline (h.name i) (a ∷ [])))

-- `ScriptedController.RestoreControllerState`, for the number of calls that was stored, if the
-- state could be read.
unfoldable pub restore_script :
    Rehearsal → Option ℤ → ScriptedController → ScriptedController × Bool
restore_script h none c = (c, false)
restore_script h (some (negsuc n)) c = (c, false)
restore_script h (some (pos n)) c = restore_calls h n 0 c.actions (reset_script c)

-- What `RandomController.ControllerState` stores: the seed and the number of calls.
unfoldable pub random_state : RandomController → Option (ℤ × ℤ)
random_state c = some (c.seed, pos c.calls)

abbrev pub six_moves : List Action
six_moves = map (λ d. record { kind = action_move; direction = pos d }) (0 ∷ 1 ∷ 2 ∷ 3 ∷ 4 ∷ 5 ∷ [])

-- The loop of `RestoreControllerState`; `draw i n` is what the call `i` of `rng.IntN(n)` returns.
unfoldable pub count_random : RandomController → Decided Action → RandomController × Bool
count_random c (decided a) = (record c { calls = c.calls + 1 }, true)
count_random c (undecided fault) = (c, false)

unfoldable pub redraw : (ℕ → ℕ → ℕ) → ℕ → ℕ → ℕ → RandomController → RandomController × Bool
redraw draw deadline zero i c = (c, true)
redraw draw deadline (suc left) i c =
    let later : RandomController × Bool → RandomController × Bool =
      (λ r. if r.1 then redraw draw deadline left (suc i) r.0 else r) in
    later (count_random c (random_decide (draw i) (restore_request deadline "restore" six_moves)))

-- `RandomController.RestoreControllerState`, for the state that was stored, if it could be read.
unfoldable pub restore_random :
    (ℕ → ℕ → ℕ) → ℕ → Option (ℤ × ℤ) → RandomController → RandomController × Bool
restore_random draw deadline none c = (c, false)
restore_random draw deadline (some (seed, negsuc n)) c = (c, false)
restore_random draw deadline (some (seed, pos n)) c =
    if eq_ℤ seed c.seed then redraw draw deadline n 0 (record c { calls = 0 }) else (c, false)
