-- ===== src/Engine/Snapshot.antt =====
-- The canonical snapshots of engine.go: a state with its maps in order, its hash, and the state that
-- is read back. JSON is left out: a snapshot stands for its text, and the SHA-256 of that text is the
-- parameter `digest`.
use worms_ng.Prelude.{
  Bool, List, Option, String, [], eq_ℤ, if◌then◌else◌, insert, length, map, none, not, pos, some,
  str_eq, ℕ, ℤ, ◌==◌, ◌∷◌,
}
use worms_ng.Engine.Setup.{StateFault, new_state, validate}
use worms_ng.Engine.Types.{
  Decision, Edge, Event, Provenance, RulesMode, State, Territories, Territory, Topology, Trails,
  Worm, edge_key, new_edge, point_eq, point_key, point_less, u64,
}

pub record TrailRecord : Type 0 where
  pub edge : Edge
  pub owner : String

pub record Snapshot : Type 0 where
  pub version : ℤ
  pub width : ℤ
  pub height : ℤ
  pub topology : Topology
  pub mode : RulesMode
  pub tick : ℕ
  pub round : ℕ
  pub worms : List Worm
  pub trails : List TrailRecord
  pub territories : List Territory
  pub events : List Event
  pub event_cursor : ℕ
  pub state_hash : String
  pub active_slot : ℤ
  pub pending : Option Decision
  pub game_over : Bool
  pub provenance : Provenance

-- The order of the trails.
unfoldable pub trail_less : TrailRecord → TrailRecord → Bool
unfolding point_less
trail_less x y =
    if not (point_eq x.edge.a y.edge.a)
    then point_less x.edge.a y.edge.a
    else point_less x.edge.b y.edge.b

-- `sort.Slice`. The keys of a map differ, so every sort gives the same list.
unfoldable pub insert_sorted {ℓ} : {A : Type ℓ} → (A → A → Bool) → A → List A → List A
insert_sorted less x [] = x ∷ []
insert_sorted less x (y ∷ ys) =
    let rest = insert_sorted less x ys in if less x y then x ∷ y ∷ ys else y ∷ rest

unfoldable pub sort_by {ℓ} : {A : Type ℓ} → (A → A → Bool) → List A → List A
unfolding insert_sorted
sort_by less [] = []
sort_by less (x ∷ xs) = insert_sorted less x (sort_by less xs)

abbrev pub territory_less : Territory → Territory → Bool
territory_less x y = point_less x.id y.id

-- `State.canonical`
unfoldable pub canonical : State → Snapshot
canonical s = record {
  version = pos 1;
  width = s.width;
  height = s.height;
  topology = s.topology;
  mode = s.mode;
  tick = s.tick;
  round = s.round;
  worms = s.worms;
  trails = sort_by trail_less (map (λ (e, o). record { edge = e; owner = o }) s.trails);
  territories = sort_by territory_less (map (λ (p, t). t) s.territories);
  events = s.events;
  event_cursor = u64 (length s.events);
  state_hash = "";
  active_slot = s.active_slot;
  pending = s.pending;
  game_over = s.game_over;
  provenance = s.provenance;
}

pub data Restored : Type 0 where
  restored : State → Restored
  unsupported_version hash_mismatch wrong_cursor : Restored
  invalid : StateFault → Restored

unfoldable pub restore_trails : List TrailRecord → Trails → Trails
restore_trails [] m = m
restore_trails (r ∷ rs) m = restore_trails rs (insert (new_edge r.edge.a r.edge.b) r.owner m)

unfoldable pub restore_territories : List Territory → Territories → Territories
restore_territories [] m = m
restore_territories (t ∷ ts) m = restore_territories ts (insert t.id t m)

-- The state that `UnmarshalSnapshot` builds. `newState` clamps the dimensions.
unfoldable pub rebuild : Snapshot → State
rebuild x =
    let s = new_state x.width x.height x.topology x.mode [] in
    record s {
      worms = x.worms;
      tick = x.tick;
      round = x.round;
      trails = restore_trails x.trails [];
      territories = restore_territories x.territories [];
      events = x.events;
      active_slot = x.active_slot;
      pending = x.pending;
      game_over = x.game_over;
      provenance = x.provenance;
    }

-- `canonicalSnapshotHash`
abbrev pub snapshot_hash : (Snapshot → String) → Snapshot → String
snapshot_hash digest x = digest (record x { state_hash = "" })

-- `State.MarshalSnapshot`
unfoldable pub marshal_snapshot : (Snapshot → String) → State → Snapshot
marshal_snapshot digest s = let x = canonical s in record x { state_hash = snapshot_hash digest x }

-- `UnmarshalSnapshot`
unfoldable pub unmarshal_snapshot : (Snapshot → String) → Snapshot → Restored
unmarshal_snapshot digest x =
    let s = rebuild x in
    if not (eq_ℤ x.version (pos 1))
    then unsupported_version
    else if not (str_eq x.state_hash (snapshot_hash digest x))
    then hash_mismatch
    else if not (x.event_cursor == u64 (length x.events))
    then wrong_cursor
    else elim (validate s) [ some fault ↦ invalid fault | none ↦ restored s ]
