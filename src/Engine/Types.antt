-- ===== src/Engine/Types.antt =====
-- The types of internal/engine/engine.go. A Go `int` is a `ℤ`, an unsigned word a `ℕ`, a fixed
-- array a function of its index, a map a `Dict`, and a nil pointer `none`.
use worms_ng.Prelude.{
  Bool, Dict, Eq, List, Option, String, [], arith, eq_ℤ, eq_ℤ_iff, false, get_or, if◌then◌else◌,
  inl, inr, leb, ltb, ltb_ℤ, negsuc, pos, refl, true, ℕ, ℤ, ◌%◌, ◌&&◌, ◌-◌, ◌||◌, ◌↔◌, ◌∷◌, ◌≡◌,
  ◌⊎◌,
}

-- uint64 and uint32 arithmetic wraps.
abbrev pub u64 : ℕ → ℕ
u64 n = n % 18446744073709551616

abbrev pub u32 : ℕ → ℕ
u32 n = n % 4294967296

-- E, SE, SW, W, NW, NE are 0 to 5; 6 is NOMOVE. Any other uint8 can be stored.
abbrev pub Direction : Type 0
Direction = ℕ

abbrev pub no_move : Direction
no_move = 6

abbrev pub valid_direction : Direction → Bool
valid_direction d = leb d 5

-- The loop `for d := East; d <= NorthEast; d++`.
abbrev pub directions : List Direction
directions = 0 ∷ 1 ∷ 2 ∷ 3 ∷ 4 ∷ 5 ∷ []

unfoldable pub opposite : Direction → Direction
opposite d = if valid_direction d then get_or (3 ∷ 4 ∷ 5 ∷ 0 ∷ 1 ∷ 2 ∷ []) d no_move else no_move

pub record Point : Type 0 where
  pub q : ℤ
  pub r : ℤ

abbrev pub point_eq : Point → Point → Bool
point_eq a b = eq_ℤ a.q b.q && eq_ℤ a.r b.r

pub point_eq_iff : (a b : Point) → (point_eq a b ≡ true) ↔ (a ≡ b)
point_eq_iff a b = ground (arith, eq_ℤ_iff a.q b.q, eq_ℤ_iff a.r b.r)

instance abbrev pub point_key : Eq Point
point_key = record { beq = point_eq; beq_iff = point_eq_iff }

-- One canonical undirected trail: the endpoints are sorted.
pub record Edge : Type 0 where
  pub a : Point
  pub b : Point

abbrev pub edge_eq : Edge → Edge → Bool
edge_eq e f = point_eq e.a f.a && point_eq e.b f.b

pub edge_eq_iff : (e f : Edge) → (edge_eq e f ≡ true) ↔ (e ≡ f)
edge_eq_iff e f = ground (arith, point_eq_iff e.a f.a, point_eq_iff e.b f.b)

instance abbrev pub edge_key : Eq Edge
edge_key = record { beq = edge_eq; beq_iff = edge_eq_iff }

unfoldable pub point_less : Point → Point → Bool
point_less a b = ltb_ℤ a.q b.q || eq_ℤ a.q b.q && ltb_ℤ a.r b.r

unfoldable pub new_edge : Point → Point → Edge
unfolding point_less
new_edge a b = if point_less b a then record { a = b; b = a } else record { a = a; b = b }

-- An int8: a direction, or a negative sentinel.
abbrev pub Action : Type 0
Action = ℤ

abbrev pub action_get_new : Action
action_get_new = negsuc 0

abbrev pub action_do_ai : Action
action_do_ai = negsuc 1

abbrev pub action_die : Action
action_die = negsuc 2

-- `Action(d)`: the conversion from uint8 to int8.
abbrev pub to_action : Direction → Action
to_action d = if ltb d 128 then pos d else negsuc (255 - d)

-- `unknown_controller` has any other string;
-- `unknown_controller ""` is the zero value.
pub data ControllerKind : Type 0 where
  controller_new controller_auto controller_wild controller_same : ControllerKind
  controller_named controller_asleep : ControllerKind
  unknown_controller : String → ControllerKind

unfoldable pub valid_kind : ControllerKind → Bool
valid_kind (unknown_controller k) = false
valid_kind _ = true

pub data RejectReason : Type 0 where
  unknown_worm dead_worm invalid_direction occupied_spoke out_of_bounds : RejectReason
  occupied_dest existing_trail game_over pending_decision frozen_unknown : RejectReason

-- What ValidateRules finds.
pub data RuleFault : Type 0 where
  bad_direction occupied_direction bad_sentinel : ℕ → RuleFault
  not_forced : Direction → RuleFault
  full_not_die : RuleFault

-- What the engine returns as an error, without the wording.
pub data EngineError : Type 0 where
  transition : RejectReason → String → Direction → EngineError
  illegal_rule : String → ℕ → Action → EngineError
  rules_fault : RuleFault → EngineError
  bad_rule_sentinel : ℕ → EngineError
  no_such_worm controller_count nil_worm : EngineError
  unknown_kind : ControllerKind → EngineError
  -- an index out of range
  panic : EngineError

pub data Result {ℓ} (A : Type ℓ) : Type ℓ where
  ok : A → Result A
  err : EngineError → Result A

pub result_cases {ℓ} :
    {A : Type ℓ} (r : Result A) → ((a : A) × (r ≡ ok a)) ⊎ ((e : EngineError) × (r ≡ err e))
result_cases (ok a) = inl (a, refl)
result_cases (err e) = inr (e, refl)

pub record Worm : Type 0 where
  pub id : String
  pub color : String
  pub position : Point
  pub alive : Bool
  pub score : ℤ
  pub previous : Direction
  pub crix : Direction
  pub controller : ControllerKind
  pub rules : ℕ → Action
  pub rule_uses : ℕ → ℕ
  pub brain_id : String
  pub brain_version : String
  pub brain_seed : ℕ
  pub frozen : Bool

pub data Topology : Type 0 where
  bounded toroidal : Topology

pub data RulesMode : Type 0 where
  modern_rules classic_rules : RulesMode

abbrev pub is_toroidal : Topology → Bool
is_toroidal toroidal = true
is_toroidal bounded = false

abbrev pub is_classic : RulesMode → Bool
is_classic classic_rules = true
is_classic modern_rules = false

pub record Territory : Type 0 where
  pub id : Point
  pub mask : ℕ
  pub color : String
  pub owner : String

pub record Provenance : Type 0 where
  pub rule_set : String
  pub source : String
  pub version : String

abbrev pub origin : Point
origin = record { q = pos 0; r = pos 0 }

abbrev pub no_territory : Territory
no_territory = record { id = origin; mask = 0; color = ""; owner = "" }

pub record Event : Type 0 where
  pub version : ℤ
  pub seq : ℕ
  pub kind : String
  pub worm_id : String
  pub from : Point
  pub to : Point
  pub edge : Edge
  pub territory : Point
  pub color : String
  pub score_delta : ℤ
  pub tick : ℕ
  pub round : ℕ
  pub mask : ℕ
  pub slot : ℤ
  pub request : ℕ
  pub rule_mask : ℕ
  pub rule_action : Action
  pub brain_id : String
  pub brain_version : String
  pub provenance : String
  pub use_count : ℕ

-- `Event{}`
abbrev pub no_event : Event
no_event = record {
  version = pos 0;
  seq = 0;
  kind = "";
  worm_id = "";
  from = origin;
  to = origin;
  edge = record { a = origin; b = origin };
  territory = origin;
  color = "";
  score_delta = pos 0;
  tick = 0;
  round = 0;
  mask = 0;
  slot = pos 0;
  request = 0;
  rule_mask = 0;
  rule_action = pos 0;
  brain_id = "";
  brain_version = "";
  provenance = "";
  use_count = 0;
}

abbrev pub event_version : ℤ
event_version = pos 1

pub record Decision : Type 0 where
  pub worm_id : String
  pub mask : ℕ
  pub slot : ℤ
  pub request : ℕ
  pub reason : String
  pub frozen : Bool

abbrev pub Trails : Type 0
Trails = Dict Edge String

abbrev pub Territories : Type 0
Territories = Dict Point Territory

pub record State : Type 0 where
  pub width : ℤ
  pub height : ℤ
  pub topology : Topology
  pub mode : RulesMode
  pub tick : ℕ
  pub round : ℕ
  pub worms : List Worm
  pub trails : Trails
  pub territories : Territories
  pub events : List Event
  pub active_slot : ℤ
  pub pending : Option Decision
  pub game_over : Bool
  pub provenance : Provenance

-- The part of a state that its geometry reads, and that no operation changes.
pub record Board : Type 0 where
  pub width : ℤ
  pub height : ℤ
  pub topology : Topology
  pub mode : RulesMode

abbrev pub board : State → Board
board s = record { width = s.width; height = s.height; topology = s.topology; mode = s.mode }
