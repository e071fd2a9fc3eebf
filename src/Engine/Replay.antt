-- ===== src/Engine/Replay.antt =====
-- `Replay`, `applyReplayEvent` and `directionForEvent` of engine.go.
use worms_ng.Prelude.{
  Bool, List, Option, [], any, bit_and, contains, eq_ℤ, false, get_elem?, if◌then◌else◌, inl, inr,
  insert, is_empty, length, modify, negsuc, none, not, pos, some, str_eq, true, update, ℕ, ◌&&◌,
  ◌++◌, ◌+ℤ◌, ◌+◌, ◌==◌, ◌||◌, ◌∷◌, ◌⊎◌,
}
use worms_ng.Engine.Board.{neighbor}
use worms_ng.Engine.Masks.{find_worm, stored_territory, worm_index}
use worms_ng.Engine.Moves.{step}
use worms_ng.Engine.Types.{
  Board, Decision, Direction, EngineError, Event, Point, State, Territory, Worm, board, directions,
  edge_eq, edge_key, err, event_version, new_edge, no_move, ok, opposite, point_eq, point_key, u64,
}

-- Why an event is not replayed, without the wording.
pub data ReplayFault : Type 0 where
  bad_version bad_sequence : ReplayFault
  wrong_edge wrong_tick repeated_edge absent_worm wrong_origin far_move dead_mover : ReplayFault
  wrong_slot wrong_round still_pending unsupported_event : ReplayFault
  rejected_step : EngineError → ReplayFault

pub data Replayed : Type 0 where
  replayed : State → Replayed
  stopped : ReplayFault → Replayed

-- The first of the directions that leads from `p` to `to`.
unfoldable pub find_direction : Board → Point → Point → List Direction → Option Direction
find_direction b p to [] = none
find_direction b p to (d ∷ ds) =
    let rest = find_direction b p to ds in if point_eq (neighbor b p d) to then some d else rest

-- `directionForEvent`
unfoldable pub direction_for_event : State → Event → Direction ⊎ ReplayFault
direction_for_event s e = elim (find_worm s.worms e.worm_id) [
  | none ↦ inr absent_worm
  | some w ↦
      if not (point_eq w.position e.from)
      then inr wrong_origin
      else if not (edge_eq e.edge (new_edge e.from e.to))
      then inr wrong_edge
      else elim (find_direction (board s) e.from e.to directions) [
        | none ↦ inr far_move
        | some d ↦ inl d
      ]
]

-- A change of the worm that the event names.
abbrev pub with_worm : State → Event → (ℕ → Worm → Replayed) → Replayed
with_worm s e f = elim (worm_index s.worms e.worm_id) [
  | none ↦ stopped absent_worm
  | some i ↦ elim (get_elem? s.worms i) [ none ↦ stopped absent_worm | some w ↦ f i w ]
]

abbrev pub change_worm : State → ℕ → (Worm → Worm) → State
change_worm s i f = record s { worms = modify s.worms i f }

unfoldable pub replay_claim : State → Event → Replayed
replay_claim s e =
    if not (edge_eq e.edge (new_edge e.from e.to))
    then stopped wrong_edge
    else if not (e.tick == u64 (s.tick + 1))
    then stopped wrong_tick
    else if contains e.edge s.trails
    then stopped repeated_edge
    else replayed (record s { tick = u64 (s.tick + 1); trails = insert e.edge e.worm_id s.trails })

unfoldable pub replay_color : State → Event → Replayed
replay_color s e =
    let old = stored_territory s.territories e.territory in
    let t = record old {
      id = e.territory;
      mask = e.mask;
      color = if str_eq old.owner "" then e.color else old.color;
    } in
    replayed (record s { territories = insert e.territory t s.territories })

unfoldable pub replay_capture : State → Event → Replayed
replay_capture s e =
    let t : Territory = record {
      id = e.territory;
      mask = e.mask;
      color = e.color;
      owner = e.worm_id;
    } in
    with_worm s e (λ i w. replayed (
      change_worm (record s { territories = insert e.territory t s.territories }) i
        (λ v. record v { score = v.score +ℤ e.score_delta })))

unfoldable pub replay_move : State → Event → Replayed
replay_move s e = with_worm s e (λ i w.
    if not w.alive then stopped dead_mover else elim (direction_for_event s e) [
      | inr fault ↦ stopped fault
      | inl d ↦
          replayed
            (change_worm s i (λ v. record v { position = e.to; previous = d; crix = opposite d }))
    ])

unfoldable pub replay_death : State → Event → Replayed
replay_death s e = with_worm s e (λ i w.
    if not (point_eq e.to w.position)
    then stopped wrong_origin
    else replayed (change_worm s i (λ v. record v { alive = false; crix = no_move })))

unfoldable pub replay_learned : State → Event → Replayed
replay_learned s e =
    let m = bit_and e.rule_mask 63 in
    with_worm s e (λ i w.
      let s₁ = change_worm s i (λ v. record v { rules = update v.rules m e.rule_action }) in
      elim s.pending [
        | none ↦ replayed s₁
        | some p ↦
            if str_eq p.worm_id e.worm_id && p.mask == m
            then replayed (record s₁ { active_slot = p.slot +ℤ pos 1; pending = none })
            else replayed s₁
      ])

unfoldable pub replay_used : State → Event → Replayed
replay_used s e = with_worm s e (λ i w. replayed (
    change_worm s i
      (λ v. record v { rule_uses = update v.rule_uses (bit_and e.rule_mask 63) e.use_count })))

unfoldable pub replay_pending : State → Event → Replayed
replay_pending s e = with_worm s e (λ i w.
    let p : Decision = record {
      worm_id = e.worm_id;
      mask = bit_and e.mask 63;
      slot = e.slot;
      request = e.request;
      reason = e.provenance;
      frozen = w.frozen;
    } in
    if not (eq_ℤ e.slot (pos i))
    then stopped wrong_slot
    else replayed (record s { pending = some p; active_slot = e.slot }))

unfoldable pub replay_round : State → Event → Replayed
replay_round s e =
    if not (e.round == u64 (s.round + 1)) then stopped wrong_round else elim s.pending [
      | some p ↦ stopped still_pending
      | none ↦ replayed (record s { round = e.round; active_slot = negsuc 0 })
    ]

-- `applyReplayEvent`
unfoldable pub apply_event : State → Event → Replayed
apply_event s e =
    if str_eq e.kind "trail_claimed"
    then replay_claim s e
    else if not (e.tick == s.tick)
    then stopped wrong_tick
    else if str_eq e.kind "territory_color_changed"
    then replay_color s e
    else if str_eq e.kind "territory_captured"
    then replay_capture s e
    else if str_eq e.kind "worm_moved"
    then replay_move s e
    else if str_eq e.kind "worm_died" || str_eq e.kind "worm_blocked"
    then replay_death s e
    else if str_eq e.kind "rule_learned"
    then replay_learned s e
    else if str_eq e.kind "rule_used"
    then replay_used s e
    else if str_eq e.kind "decision_pending"
    then replay_pending s e
    else if str_eq e.kind "round_completed"
    then replay_round s e
    else if str_eq e.kind "game_over"
    then replayed (record s { game_over = true })
    else stopped unsupported_event

-- The last loop of `Replay`: each event is applied and recorded.
unfoldable pub apply_events : State → List Event → Replayed
apply_events s [] = replayed s
apply_events s (e ∷ es) = elim (apply_event s e) [
  | stopped fault ↦ stopped fault
  | replayed s' ↦ apply_events (record s' { events = s'.events ++ e ∷ [] }) es
]

-- The replay of a stream of moves alone.
unfoldable pub step_events : State → List Event → Replayed
step_events s [] = replayed s
step_events s (e ∷ es) = elim (direction_for_event s e) [
  | inr fault ↦ stopped fault
  | inl d ↦
      let (s', result) = step s e.worm_id d in
      let rest = step_events s' es in
      elim result [ err fault ↦ stopped (rejected_step fault) | ok _ ↦ rest ]
]

abbrev pub is_move : Event → Bool
is_move e = str_eq e.kind "worm_moved"

abbrev pub known_version : Event → Bool
known_version e = eq_ℤ e.version (pos 0) || eq_ℤ e.version event_version

-- The step of the probe for a legacy event, where it can be made.
unfoldable pub probe_step : State → Event → Option (State × Event)
probe_step s e = elim (direction_for_event s e) [
  | inr fault ↦ none
  | inl d ↦
      let (s', result) = step s e.worm_id d in
      elim result [ err fault ↦ none | ok made ↦ some (s', made) ]
]

-- The first loop of `Replay`: versions and sequence numbers. `expected` is the number that is due.
unfoldable pub check_events : Bool → State → ℕ → List Event → Option ReplayFault
check_events legacy probe expected [] = none
check_events legacy probe expected (e ∷ es) =
    let next_number = u64 (expected + 1) in
    let plain = check_events legacy probe next_number es in
    let in_order = if e.seq == expected then plain else some bad_sequence in
    if not (known_version e)
    then some bad_version
    else if not legacy
    then in_order
    else elim (probe_step probe e) [
      | none ↦ in_order
      | some (probe', made) ↦
          let rest = check_events legacy probe' next_number es in
          if not (e.seq == expected) && not (e.seq == made.seq) then some bad_sequence else rest
    ]

-- `Replay`
unfoldable pub replay : State → List Event → Replayed
replay s events =
    let legacy = not (any (λ e. not (is_move e)) events) in
    if is_empty events
    then replayed s
    else elim (check_events legacy s (u64 (length s.events + 1)) events) [
      | some fault ↦ stopped fault
      | none ↦ if legacy then step_events s events else apply_events s events
    ]
