-- ===== src/Planner/Local.antt =====
-- The simulation world of planner.go for a brain that sees only its surroundings.
use worms_ng.Prelude.{
  List, [], false, get_or, if◌then◌else◌, insert, ltb, negsuc, none, pos, ℕ, ℤ, ◌-◌, ◌^◌, ◌∷◌,
}
use worms_ng.Engine.Board.{neighbor}
use worms_ng.Engine.Observe.{Observation}
use worms_ng.Engine.Types.{
  Board, Direction, Point, State, Territories, Territory, Worm, bounded, directions, edge_key,
  modern_rules, no_territory, point_key,
}
use worms_ng.Prelude.Bits.{has_bit}

-- `localMaskForCount`
unfoldable pub local_mask_for_count : ℕ → ℕ
local_mask_for_count n = if ltb 6 n then 63 else 2 ^ n - 1

-- `blocked &^= 1 << d` for the legal directions in turn.
unfoldable pub clear_bits : ℕ → List Direction → ℕ
clear_bits m [] = m
clear_bits m (d ∷ ds) = clear_bits (if has_bit m d then m - 2 ^ d else m) ds

abbrev pub bare_territory : Point → ℕ → Territory
bare_territory p m = record no_territory { id = p; mask = m }

-- The loop over the six neighbours.
unfoldable pub add_neighbors : Board → Point → List ℕ → List Direction → Territories → Territories
add_neighbors b p counts [] territories = territories
add_neighbors b p counts (d ∷ ds) territories =
    let q = neighbor b p d in
    add_neighbors b p counts ds
      (insert q (bare_territory q (local_mask_for_count (get_or counts d 0))) territories)

-- `1 << 30`
abbrev pub local_size : ℤ
local_size = pos 1073741824

abbrev pub local_board : Board
local_board = record {
  width = local_size;
  height = local_size;
  topology = bounded;
  mode = modern_rules;
}

-- `localPlanningState`, of the worm `w`.
unfoldable pub local_planning_state : State → Worm → Observation → State
local_planning_state s w obs =
    let blocked = clear_bits 63 obs.legal in
    record s {
      width = local_size;
      height = local_size;
      topology = bounded;
      mode = modern_rules;
      tick = 0;
      round = 0;
      events = [];
      active_slot = negsuc 0;
      pending = none;
      game_over = false;
      worms = w ∷ [];
      trails = [];
      territories =
          add_neighbors local_board w.position obs.local_territory_counts directions
            (insert w.position (bare_territory w.position blocked) []);
    }
