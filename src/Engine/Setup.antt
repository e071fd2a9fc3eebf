-- ===== src/Engine/Setup.antt =====
-- The constructors and the validation of a state, from engine.go, geometry.go and board.go.
pub mod Valid
pub mod Fresh
use worms_ng.Prelude.{
  List, Option, String, [], any, byte_length, eq_ℤ, false, if◌then◌else◌, insert, is_blank, is_odd,
  length, ltb, ltb_ℤ, map, negsuc, none, not, pos, some, str_eq, true, ℤ, ◌&&◌, ◌==◌, ◌||◌, ◌∷◌,
}
use worms_ng.Engine.Board.{in_bounds, points}
use worms_ng.Engine.Masks.{is_spoke, reciprocal_ok}
use worms_ng.Engine.Moves.Preserve.{placed}
use worms_ng.Engine.Moves.WellFormed.{completed}
use worms_ng.Engine.Rules.{rules_empty, validate_rules}
use worms_ng.Engine.Types.{
  Board, Point, RuleFault, RulesMode, State, Territories, Territory, Topology, Trails, Worm, board,
  bounded, classic_rules, controller_asleep, controller_auto, controller_named, controller_new,
  controller_same, controller_wild, edge_key, game_over, is_classic, is_toroidal, modern_rules,
  no_move, no_territory, point_eq, point_key, toroidal, unknown_controller, valid_direction,
}

-- Why a state or a board is refused. Go's errors name the same cases in words.
pub data StateFault : Type 0 where
  bad_dimensions odd_height too_many_worms : StateFault
  empty_id long_id duplicate_id : StateFault
  worm_outside bad_crix bad_previous negative_score shared_point : StateFault
  bad_rules : RuleFault → StateFault
  bad_edge far_edge no_owner unknown_owner wrong_score not_reciprocal : StateFault
  bad_participants bad_classic_size few_points : StateFault

-- The first fault of two checks.
abbrev pub or_else {ℓ} : {A : Type ℓ} → Option A → Option A → Option A
or_else (some a) rest = some a
or_else none rest = rest

-- `ValidateID`. A string of the model is UTF-8 as it stands.
unfoldable pub check_id : String → Option StateFault
unfolding is_blank
check_id name =
    if is_blank name
    then some empty_id
    else if ltb 128 (byte_length name)
    then some long_id
    else none

-- `ValidateWorms`, after the names `seen`.
unfoldable pub check_names : List String → List Worm → Option StateFault
check_names seen [] = none
check_names seen (w ∷ ws) =
    let rest = check_names (w.id ∷ seen) ws in
    or_else (check_id w.id) (if any (str_eq w.id) seen then some duplicate_id else rest)

unfoldable pub validate_worms : List Worm → Option StateFault
validate_worms ws = check_names [] ws

-- One worm in `Validate`, after the names `seen` and the points `held` by live worms.
unfoldable pub check_worm : State → List String → List Point → Worm → Option StateFault
check_worm s seen held w =
    let table : Option StateFault =
      if rules_empty w.rules
      then none
      else elim (validate_rules w.rules) [ none ↦ none | some fault ↦ some (bad_rules fault) ] in
    or_else (check_id w.id) (
      if any (str_eq w.id) seen
      then some duplicate_id
      else if not (in_bounds (board s) w.position) && w.alive
      then some worm_outside
      else if not (valid_direction w.crix) && not (w.crix == no_move)
      then some bad_crix
      else if not (valid_direction w.previous) && not (w.previous == no_move)
      then some bad_previous
      else if ltb_ℤ w.score (pos 0)
      then some negative_score
      else if not (is_classic s.mode) && w.alive && any (point_eq w.position) held
      then some shared_point
      else table)

unfoldable pub check_worms : State → List String → List Point → List Worm → Option StateFault
check_worms s seen held [] = none
check_worms s seen held (w ∷ ws) =
    let held' = if not (is_classic s.mode) && w.alive then w.position ∷ held else held in
    let rest = check_worms s (w.id ∷ seen) held' ws in or_else (check_worm s seen held w) rest

-- The loop over the trails. Go visits a map in any order, so of several faults any may come first.
unfoldable pub check_trails : Board → Trails → Option StateFault
check_trails b [] = none
check_trails b ((e, owner) ∷ trails) =
    let rest = check_trails b trails in
    if point_eq e.a e.b || not (in_bounds b e.a) || not (in_bounds b e.b)
    then some bad_edge
    else if not (is_spoke b e.a e)
    then some far_edge
    else rest

-- The loop over the territories.
unfoldable pub check_owners : List Worm → Territories → Option StateFault
check_owners ws [] = none
check_owners ws ((p, t) ∷ territories) =
    let rest = check_owners ws territories in
    if not (t.mask == 63)
    then rest
    else if str_eq t.owner ""
    then some no_owner
    else if not (any (λ w. str_eq w.id t.owner) ws)
    then some unknown_owner
    else rest

-- `expectedScores` of a name: the completed territories that it owns.
unfoldable pub check_scores : Territories → List Worm → Option StateFault
check_scores territories [] = none
check_scores territories (w ∷ ws) =
    let rest = check_scores territories ws in
    if eq_ℤ (pos (completed w.id territories)) w.score then rest else some wrong_score

-- `State.Validate`, with `none` for nil.
unfoldable pub validate : State → Option StateFault
validate s =
    if ltb_ℤ s.width (pos 1) || ltb_ℤ s.height (pos 1)
    then some bad_dimensions
    else if is_classic s.mode && is_toroidal s.topology && is_odd s.height
    then some odd_height
    else if ltb 4 (length s.worms)
    then some too_many_worms
    else or_else (check_worms s [] [] s.worms) (
        or_else (check_trails (board s) s.trails) (
          or_else (check_owners s.worms s.territories) (
            or_else (check_scores s.territories s.worms)
              (if reciprocal_ok (board s) s.trails then none else some not_reciprocal))))

-- A worm at the start of a classic game: `initClassicPosition`.
unfoldable pub centre_worm : Worm → Worm
centre_worm w = record w {
  position = record { q = pos 9; r = pos 9 };
  crix = no_move;
  previous = no_move;
  alive = if not (str_eq w.id "") && not w.alive then w.alive else true;
}

-- The last loop of `newState`. An empty controller name is an unknown controller.
unfoldable pub fill_worm : Worm → Worm
fill_worm w = record w {
  crix = if w.crix == 0 && w.previous == 0 then no_move else w.crix;
  controller = elim w.controller [
    | unknown_controller k ↦ if str_eq k "" then controller_new else unknown_controller k
    | controller_new ↦ controller_new
    | controller_auto ↦ controller_auto
    | controller_wild ↦ controller_wild
    | controller_same ↦ controller_same
    | controller_named ↦ controller_named
    | controller_asleep ↦ controller_asleep
  ];
}

abbrev pub blank_territory : Point → Territory
blank_territory p = record no_territory { id = p }

-- `s.Territories[p] = Territory{ID: p}` for the points in turn.
unfoldable pub add_territories : List Point → Territories → Territories
add_territories [] m = m
add_territories (p ∷ ps) m = add_territories ps (insert p (blank_territory p) m)

-- `newState`
unfoldable pub new_state : ℤ → ℤ → Topology → RulesMode → List Worm → State
new_state width height topology mode worms =
    let w = if ltb_ℤ width (pos 1) then pos 1 else width in
    let h = if ltb_ℤ height (pos 1) then pos 1 else height in
    let b : Board = record { width = w; height = h; topology = topology; mode = mode } in
    let placed = if is_classic mode then map centre_worm worms else worms in
    record {
      width = w;
      height = h;
      topology = topology;
      mode = mode;
      tick = 0;
      round = 0;
      worms = map fill_worm placed;
      trails = [];
      territories = add_territories (points b) [];
      events = [];
      active_slot = negsuc 0;
      pending = none;
      game_over = false;
      provenance = record {
        rule_set = "classic";
        source = "worms-inspired-agent-game.md";
        version = "v1";
      };
    }

-- `New` and `NewBounded`, `NewClassic` and `Classic`, `NewToroidal`
unfoldable pub new_bounded : ℤ → ℤ → List Worm → State
new_bounded width height worms = new_state width height bounded modern_rules worms

unfoldable pub new_classic : List Worm → State
new_classic worms = new_state (pos 18) (pos 18) toroidal classic_rules worms

unfoldable pub new_toroidal : ℤ → ℤ → List Worm → State
new_toroidal width height worms = new_state width height toroidal classic_rules worms

-- A state that has passed its checks, or the fault.
pub data Checked : Type 0 where
  accepted : State → Checked
  refused : StateFault → Checked

abbrev pub checked : State → Checked
checked s = elim (validate s) [ none ↦ accepted s | some fault ↦ refused fault ]

-- `NewClassicValidated`
unfoldable pub new_classic_validated : List Worm → Checked
new_classic_validated worms = elim (validate_worms worms) [
  | some fault ↦ refused fault
  | none ↦ checked (new_classic worms)
]

-- `NewValidated`
unfoldable pub new_validated : ℤ → ℤ → List Worm → Checked
new_validated width height worms =
    if ltb_ℤ width (pos 1) || ltb_ℤ height (pos 1)
    then refused bad_dimensions
    else elim (validate_worms worms) [
      | some fault ↦ refused fault
      | none ↦ checked (new_bounded width height worms)
    ]
