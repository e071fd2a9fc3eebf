-- ===== src/Engine/Moves.antt =====
-- `LegalMoves` and `Step` of engine.go. A method that mutates `*State` returns the new state.
pub mod WellFormed
pub mod Recolor
pub mod Preserve
pub mod Legal
pub mod StepLaws
pub mod Owners
pub mod Effect
pub mod Torus
use worms_ng.Prelude.{
  Bool, List, Option, String, [], bit_or, contains, eq_ℤ, false, get_elem?, if◌then◌else◌, insert,
  length, modify, none, not, pos, some, str_eq, ℕ, ◌&&◌, ◌++◌, ◌+ℤ◌, ◌+◌, ◌==◌, ◌||◌, ◌∷◌,
}
use worms_ng.Engine.Board.{in_bounds, neighbor}
use worms_ng.Engine.Masks.{find_worm, has_worm, mask_at, stored_territory, trail_mask, worm_index}
use worms_ng.Engine.Types.{
  Direction, Event, Point, RejectReason, Result, State, Worm, board, dead_worm, directions,
  edge_key, err, event_version, existing_trail, game_over, invalid_direction, is_classic, new_edge,
  no_event, no_move, occupied_dest, occupied_spoke, ok, opposite, out_of_bounds, panic, point_key,
  transition, u64, unknown_worm, valid_direction,
}
use worms_ng.Prelude.Bits.{has_bit}

-- The tests of a direction in `LegalMoves`, in a worm's own mask `m`.
unfoldable pub is_open : State → ℕ → Point → Direction → Bool
is_open s m p d =
    let to = neighbor (board s) p d in
    not (has_bit m d) && in_bounds (board s) to && (is_classic s.mode || not (has_worm s.worms to))

unfoldable pub open_moves : State → ℕ → Point → List Direction → List Direction
unfolding is_open
open_moves s m p [] = []
open_moves s m p (d ∷ ds) =
    let rest = open_moves s m p ds in if is_open s m p d then d ∷ rest else rest

-- `State.LegalMoves`
unfoldable pub legal_moves : State → String → List Direction
unfolding open_moves
legal_moves s name = elim (find_worm s.worms name) [
  | none ↦ []
  | some w ↦ if not w.alive then [] else open_moves s (mask_at s w.position) w.position directions
]

-- `State.emit`
unfoldable pub stamp : State → Event → Event
stamp s e = record e {
  version = if eq_ℤ e.version (pos 0) then event_version else e.version;
  seq = u64 (length s.events + 1);
  tick = s.tick;
  round = s.round;
}

unfoldable pub emit : State → Event → State
unfolding stamp
emit s e = record s { events = s.events ++ stamp s e ∷ [] }

-- `State.recolorCapture`, for the worm in slot `i` whose ID is `name`.
unfoldable pub recolor_capture : State → ℕ → String → Point → String → State
unfolding emit
recolor_capture s i name p color =
    let old = stored_territory s.territories p in
    let t = record old { id = p; mask = bit_or old.mask (trail_mask (board s) s.trails p) } in
    let captured = record t { owner = name; color = color } in
    let recolored = record t { color = color } in
    if t.mask == 63
    then if str_eq t.owner ""
      then emit
          (record s {
            worms = modify s.worms i (λ w. record w { score = w.score +ℤ pos 1 });
            territories = insert p captured s.territories;
          })
          (record no_event {
            kind = "territory_captured";
            worm_id = name;
            territory = p;
            color = color;
            score_delta = pos 1;
            mask = 63;
          })
      else record s { territories = insert p t s.territories }
    else if str_eq t.owner ""
    then record (emit s (record no_event {
      kind = "territory_color_changed";
      worm_id = name;
      territory = p;
      color = color;
      mask = t.mask;
    })) { territories = insert p recolored s.territories }
    else record s { territories = insert p t s.territories }

-- Why `Step` rejects a move of the worm `w`, in the order of its tests.
unfoldable pub step_refusal : State → Worm → Direction → Option RejectReason
step_refusal s w d =
    let to = neighbor (board s) w.position d in
    if not w.alive
    then some dead_worm
    else if not (valid_direction d)
    then some invalid_direction
    else if has_bit (mask_at s w.position) d
    then some occupied_spoke
    else if not (in_bounds (board s) to)
    then some out_of_bounds
    else if not (is_classic s.mode) && has_worm s.worms to
    then some occupied_dest
    else if contains (new_edge w.position to) s.trails
    then some existing_trail
    else none

-- The colour that a move paints with.
abbrev pub paint : Worm → String → String
paint w name = if str_eq w.color "" then name else w.color

-- `Step` once its tests have passed: the trail is claimed, the source is recoloured or captured,
-- the worm moves, the destination is recoloured or captured.
unfoldable pub claim_trail : State → Worm → String → Direction → State
unfolding emit
claim_trail s w name d =
    let to = neighbor (board s) w.position d in
    let edge = new_edge w.position to in
    let s₁ = record s { tick = u64 (s.tick + 1); trails = insert edge name s.trails } in
    emit s₁ (record no_event {
      kind = "trail_claimed";
      worm_id = name;
      from = w.position;
      to = to;
      edge = edge;
      color = paint w name;
      mask = mask_at s₁ w.position;
    })

unfoldable pub relocate : State → ℕ → Worm → String → Direction → State
relocate s i w name d =
    let to = neighbor (board s) w.position d in
    record s {
      worms = modify s.worms i (λ v. record v { position = to; previous = d; crix = opposite d });
      trails = insert (new_edge w.position to) name s.trails;
    }

abbrev pub move_event : State → Worm → String → Direction → Event
move_event s w name d =
    let to = neighbor (board s) w.position d in
    record no_event {
      kind = "worm_moved";
      worm_id = name;
      from = w.position;
      to = to;
      edge = new_edge w.position to;
      color = paint w name;
    }

-- The state at the end of the move, before a full destination kills the worm.
unfoldable pub travel : State → ℕ → Worm → String → Direction → State
travel s i w name d =
    let s₁ = claim_trail s w name d in
    let s₂ = recolor_capture s₁ i name w.position (paint w name) in
    let s₃ = relocate s₂ i w name d in
    recolor_capture s₃ i name (neighbor (board s) w.position d) (paint w name)

unfoldable pub settle : State → ℕ → String → Point → State
unfolding emit
settle s i name to =
    if mask_at s to == 63
    then emit
        (record s { worms = modify s.worms i (λ v. record v { alive = false; crix = no_move }) })
        (record no_event { kind = "worm_died"; worm_id = name; to = to })
    else s

unfoldable pub perform : State → ℕ → Worm → String → Direction → State × Event
perform s i w name d =
    let s₁ = travel s i w name d in
    let e = move_event s w name d in
    (settle (emit s₁ e) i name (neighbor (board s) w.position d), stamp s₁ e)

-- `State.Step`
unfoldable pub step : State → String → Direction → State × Result Event
step s name d =
    if s.game_over then (s, err (transition game_over name d)) else elim (worm_index s.worms name) [
      | none ↦ (s, err (transition unknown_worm name d))
      | some i ↦ elim (get_elem? s.worms i) [
        | none ↦ (s, err panic)
        | some w ↦ elim (step_refusal s w d) [
          | some reason ↦ (s, err (transition reason name d))
          | none ↦ let (s', e) = perform s i w name d in (s', ok e)
        ]
      ]
    ]
