-- ===== src/Match/Play.antt =====
-- `Advance`, `Resolve` and `Submit` of match.go, with the request that a controller is asked.
use worms_ng.Prelude.{
  Bool, Dict, List, Option, String, [], count_if, drop, false, get_elem?, get_or, if◌then◌else◌,
  insert, length, lookup, ltb, map, modify, negsuc, none, pos, pos_part, some, str_eq, string_eq,
  true, ℕ, ℤ, ◌+ℤ◌, ◌+◌, ◌==◌, ◌∷◌,
}
use worms_ng.Engine.Board.{neighbor}
use worms_ng.Engine.Masks.{occupied}
use worms_ng.Engine.Observe.{Observation, observe}
use worms_ng.Engine.Turns.{submit}
use worms_ng.Engine.Types.{
  Direction, Event, Point, Result, State, Worm, board, directions, edge_key, err, new_edge, no_move,
  ok, point_key, u64,
}
use worms_ng.Match.{
  Answer, Controller, Match, Outcome, Reply, World, bad_action, bad_request, broke, controller_name,
  controller_provenance, done, engine_failed, fails, keep_or_restore, now, out_of_range, picked,
  restore_runtime, status_of, ticked, unknown_worm,
}
use worms_ng.Match.Same.{prepare_same}
use worms_ng.Prelude.Bits.{has_bit}
use worms_ng.Protocol.{
  Action, ActionKind, DecisionRequest, Neighbor, OutcomeKind, Position, TrailState, action_move,
  action_resign, outcome_accepted, outcome_disconnect, outcome_resigned, outcome_timeout,
  trail_empty, trail_other, trail_own, validate_action, validate_request,
}

-- `recordLastActionLocked`
unfoldable pub mover_of : List Worm → String → ℤ → Option (Direction × ℤ)
mover_of [] name i = none
mover_of (w ∷ ws) name i =
    let rest = mover_of ws name (i +ℤ pos 1) in
    if str_eq w.id name then some (w.previous, i) else rest

unfoldable pub last_moves : List Worm → List Event → Option Direction × ℤ → Option Direction × ℤ
last_moves ws [] last = last
last_moves ws (e ∷ events) (d, slot) =
    let found : Option Direction × ℤ = elim (mover_of ws e.worm_id (pos 0)) [
      | none ↦ (d, slot)
      | some (d', i) ↦ (some d', i)
    ] in
    last_moves ws events (if str_eq e.kind "worm_moved" then found else (d, slot))

abbrev protocol_point : Point → Position
protocol_point p = record { x = p.q; y = p.r }

abbrev neighbor_view : State → Point → ℕ → Direction → Neighbor
neighbor_view s p occupied d = record {
  direction = pos d;
  position = protocol_point (neighbor (board s) p d);
  occupied = has_bit occupied d;
}

-- The trail of a spoke, as the worm `name` sees it.
unfoldable pub trail_view : State → Point → String → Direction → TrailState
trail_view s p name d = elim (lookup (new_edge p (neighbor (board s) p d)) s.trails) [
  | none ↦ trail_empty
  | some owner ↦ if str_eq owner name then trail_own else trail_other
]

unfoldable pub score_map : List Worm → Dict String ℤ → Dict String ℤ
score_map [] scores = scores
score_map (w ∷ ws) scores = score_map ws (insert w.id w.score scores)

-- The state of `resolveTerminalLocked`: the worm in slot `i` is out.
unfoldable pub retire : State → ℕ → State
retire s i =
    let worms = modify s.worms i (λ w. record w { alive = false; crix = no_move }) in
    record s {
      worms = worms;
      pending = none;
      active_slot = pos (i + 1);
      game_over = if count_if (λ w. w.alive) worms == 0 then true else s.game_over;
    }

abbrev pub is_resign_kind : ActionKind → Bool
is_resign_kind action_resign = true
is_resign_kind k = false

module _ {S : Type 0} where
  abbrev pub record_last_action : Match S → List Event → Match S
  record_last_action m events =
      let last = last_moves m.state.worms events (m.last_action, m.last_slot) in
      record m { last_action = last.0; last_slot = last.1 }

  -- The request of `requestLocked`, for the worm `w` in slot `i`.
  unfoldable pub request_for : World S → Match S → String → ℤ → Worm → Observation → DecisionRequest
  request_for e m id slot w obs = record {
    version = "v1";
    decision_id = id;
    observation = record {
      version = "v1";
      game_id = m.game_id;
      worm_id = obs.worm_id;
      worm_instance_id = e.numbered obs.worm_id slot;
      decision_id = id;
      tick = m.state.tick;
      position = protocol_point obs.position;
      orientation = if ltb 5 obs.incoming then pos 0 else pos obs.incoming;
      neighbors = map (neighbor_view m.state obs.position obs.occupied_mask) directions;
      trail_states = map (trail_view m.state obs.position obs.worm_id) directions;
      legal_actions = map (λ d. record { kind = action_move; direction = pos d }) obs.legal;
      scores = score_map m.state.worms [];
      mode = e.kind_text w.controller;
      deadline = m.pending_deadline;
      brain_id = w.brain_id;
      brain_version =
          if str_eq w.brain_version ""
          then get_or m.brain_versions (pos_part slot) ""
          else w.brain_version;
      pattern_key = e.mask_text obs.raw_mask;
      provenance = insert "worm_slot" (e.number slot) (("seed", e.number m.seed) ∷ []);
    };
    deadline = m.pending_deadline;
  }

  -- The match behind the first lines of `requestLocked`: one more decision, and a deadline.
  unfoldable pub count_request : Match S → Match S
  count_request m =
      if m.pending_deadline == 0
      then record m {
        decisions = u64 (m.decisions + 1);
        pending_deadline = now m + m.deadline;
        reads = m.reads + 1;
      }
      else record m { decisions = u64 (m.decisions + 1) }

  -- `requestLocked`, for the decision of the slot `p.slot`.
  unfoldable pub request_locked :
      World S → Match S → String → ℤ → ℕ → Match S × Reply DecisionRequest
  request_locked e m name slot number = elim (observe m.state name) [
    | none ↦ (m, fails unknown_worm)
    | some obs ↦
        let m' = count_request m in
        elim slot [
          | negsuc i ↦ (m', fails out_of_range)
          | pos i ↦ elim (get_elem? m.state.worms i) [
            | none ↦ (m', fails out_of_range)
            | some w ↦
                let r = request_for e m' (e.numbered m.game_id (pos number)) (pos i) w obs in
                elim (validate_request r) [
                  | none ↦ (m', done r)
                  | some fault ↦ (m', fails (bad_request fault))
                ]
          ]
        ]
  ]

  abbrev pub outcome_of :
      Match S
      → DecisionRequest
      → String
      → OutcomeKind
      → Option Action
      → String
      → Dict String String
      → Outcome
  outcome_of m r name kind action reason provenance = record {
    decision_id = r.decision_id;
    game_id = m.game_id;
    worm_id = name;
    kind = kind;
    action = action;
    at = now m;
    reason = reason;
    provenance = provenance;
  }

  -- `resolveTerminalLocked`. A slot out of range is a panic.
  unfoldable pub resolve_terminal :
      World S
      → Match S
      → DecisionRequest
      → String
      → ℤ
      → OutcomeKind
      → Option Action
      → String
      → Match S × Reply Outcome
  resolve_terminal e m r name (negsuc i) kind action reason = (m, fails out_of_range)
  resolve_terminal e m r name (pos i) kind action reason =
      let m' = record m { state = retire m.state i; pending_deadline = 0 } in
      let o =
        outcome_of m' r name kind action reason (("controller", controller_name m (pos i)) ∷ []) in
      let m'' = ticked m' in
      if ltb i (length m.state.worms)
      then keep_or_restore e m m'' [] (some o) (status_of m'') o
      else (m, fails out_of_range)

  -- `prepareSameForActionLocked`
  unfoldable pub prepare_for : Match S → Direction → Match S
  prepare_for m d =
      let state = if m.has_store then m.state else prepare_same (some d) m.state in
      record m { last_action = some d; state = state }

  -- `submitLocked`, behind `prepareSameForActionLocked`: `m` is the match before it.
  unfoldable pub accept_move :
      World S
      → Match S
      → Match S
      → DecisionRequest
      → String
      → Action
      → State × Result (List Event)
      → Match S × Reply Unit
  accept_move e before m r name a (s, err fault) =
      (restore_runtime before m, fails (engine_failed fault))
  accept_move e before m r name a (s, ok events) =
      let fresh = drop (length m.state.events) s.events in
      let m' = record_last_action (record m { state = s; pending_deadline = 0 }) fresh in
      let o = outcome_of m' r name outcome_accepted (some a) "" [] in
      let m'' = ticked m' in keep_or_restore e before m'' fresh (some o) (status_of m'') tt

  unfoldable pub submit_locked :
      World S → Match S → DecisionRequest → String → Action → Match S × Reply Unit
  submit_locked e m r name a =
      let d = pos_part a.direction in
      let m' = prepare_for m d in accept_move e m m' r name a (submit m'.state d)

  -- An error restores the runtime of `before`.
  unfoldable pub restore_on_error : {A : Type 0} → Match S → Match S × Reply A → Match S × Reply A
  restore_on_error before (m, done a) = (m, done a)
  restore_on_error before (m, fails fault) = (restore_runtime before m, fails fault)

  abbrev pub accepted_of : Match S → Controller S → DecisionRequest → String → Action → Outcome
  accepted_of m c r name a =
      outcome_of m r name outcome_accepted (some a) "" (controller_provenance c)

  unfoldable pub accepted_after :
      Match S
      → Controller S
      → DecisionRequest
      → String
      → Action
      → Match S × Reply Unit
      → Match S × Reply Outcome
  accepted_after before c r name a (m, done _) = (ticked m, done (accepted_of m c r name a))
  accepted_after before c r name a (m, fails fault) = (restore_runtime before m, fails fault)

  -- What is done with an answer that came in time.
  unfoldable pub take_answer :
      World S
      → Match S
      → Match S
      → Controller S
      → DecisionRequest
      → String
      → ℤ
      → Answer
      → Match S × Reply Outcome
  take_answer e before m c r name slot (broke late reason) =
      let kind = if late then outcome_timeout else outcome_disconnect in
      restore_on_error before (resolve_terminal e m r name slot kind none reason)
  take_answer e before m c r name slot (picked a) = elim (validate_action a) [
    | some fault ↦ (m, fails (bad_action fault))
    | none ↦
        if is_resign_kind a.kind
        then restore_on_error before
            (resolve_terminal e m r name slot outcome_resigned (some a) "controller resigned")
        else accepted_after before c r name a (submit_locked e m r name a)
  ]
