-- ===== src/Engine/Rules.antt =====
-- internal/engine/controller.go, the tables: remembered rules, their validation and normalisation,
-- and the setup of a worm's controller. A `[64]Action` is a function of its index.
pub mod Valid
pub mod Setup
use Prim.Native.String.{◌++◌ as ◌<>◌}
use worms_ng.Prelude.{
  Bool, List, Option, String, [], bit_and, bit_xor, eq_ℤ, false, get_or, if◌then◌else◌, is_empty,
  length, ltb, negsuc, none, not, pos, some, str_eq, suc, true, update, zero, ℕ, ◌%◌, ◌&&◌, ◌*◌,
  ◌+◌, ◌/◌, ◌==◌, ◌^◌, ◌||◌, ◌∷◌,
}
use worms_ng.Engine.Masks.{find_worm, mask_at}
use worms_ng.Engine.Types.{
  Action, ControllerKind, Direction, EngineError, Result, RuleFault, State, Worm, action_die,
  action_do_ai, action_get_new, bad_direction, bad_rule_sentinel, bad_sentinel, controller_asleep,
  controller_auto, controller_count, controller_named, controller_new, controller_same,
  controller_wild, directions, err, full_not_die, no_move, no_such_worm, not_forced,
  occupied_direction, ok, rules_fault, to_action, u64, unknown_controller, unknown_kind, valid_kind,
}
use worms_ng.Prelude.Bits.{has_bit}

abbrev pub RuleTable : Type 0
RuleTable = ℕ → Action

-- `63^(1<<d)`: the mask whose one free spoke is `d`.
abbrev pub forced_mask : Direction → ℕ
forced_mask d = bit_xor 63 (2 ^ d)

unfoldable pub force_all : List Direction → RuleTable → RuleTable
force_all [] r = r
force_all (d ∷ ds) r = force_all ds (update r (forced_mask d) (to_action d))

unfoldable pub install_forced : RuleTable → RuleTable
unfolding force_all
install_forced r = update (force_all directions r) 63 action_die

unfoldable pub xorshift : ℕ → ℕ
xorshift x =
    let x₀ = if x == 0 then 0x9e3779b97f4a7c15 else x in
    let x₁ = bit_xor x₀ (u64 (x₀ * 2 ^ 13)) in
    let x₂ = bit_xor x₁ (x₁ / 2 ^ 7) in bit_xor x₂ (u64 (x₂ * 2 ^ 17))

-- The free spokes of the mask `m`, in order.
unfoldable pub exits : ℕ → List Direction → List Direction
exits m [] = []
exits m (d ∷ ds) = let rest = exits m ds in if has_bit m d then rest else d ∷ rest

-- The loop of `fillWild` from the mask `m` on, with `left` masks to go; `x` is the random state.
unfoldable pub fill_from : ℕ → ℕ → ℕ → RuleTable → RuleTable
fill_from zero m x r = r
fill_from (suc left) m x r =
    let out = exits m directions in
    let dead = fill_from left (m + 1) x (update r m action_die) in
    let y = xorshift x in
    let chosen = get_or out (y % length out) 0 in
    let drawn = fill_from left (m + 1) y (update r m (to_action chosen)) in
    if m == 63 then dead else if is_empty out then dead else drawn

unfoldable pub fill_wild : RuleTable → ℕ → RuleTable
fill_wild r seed = fill_from 64 0 seed r

-- The tests of one entry in `ValidateRules`.
unfoldable pub check_action : ℕ → Action → Option RuleFault
check_action m (pos a) =
    if ltb 5 a
    then some (bad_direction m)
    else if has_bit m a
    then some (occupied_direction m)
    else none
check_action m (negsuc a) =
    if eq_ℤ (negsuc a) action_get_new || eq_ℤ (negsuc a) action_do_ai || eq_ℤ (negsuc a) action_die
    then none
    else some (bad_sentinel m)

unfoldable pub check_table : ℕ → ℕ → RuleTable → Option RuleFault
check_table zero m r = none
check_table (suc left) m r =
    let rest = check_table left (m + 1) r in
    elim (check_action m (r m)) [ some fault ↦ some fault | none ↦ rest ]

unfoldable pub check_forced : List Direction → RuleTable → Option RuleFault
check_forced [] r = none
check_forced (d ∷ ds) r =
    let rest = check_forced ds r in
    if eq_ℤ (r (forced_mask d)) (to_action d) then rest else some (not_forced d)

-- `ValidateRules`, with `none` for nil.
unfoldable pub validate_rules : RuleTable → Option RuleFault
validate_rules r = elim (check_table 64 0 r) [
  | some fault ↦ some fault
  | none ↦ elim (check_forced directions r) [
    | some fault ↦ some fault
    | none ↦ if eq_ℤ (r 63) action_die then none else some full_not_die
  ]
]

empty_from : ℕ → ℕ → RuleTable → Bool
empty_from zero m r = true
empty_from (suc left) m r = eq_ℤ (r m) (pos 0) && empty_from left (m + 1) r

unfoldable pub rules_empty : RuleTable → Bool
unfolding empty_from
rules_empty r = empty_from 64 0 r

-- One entry of `NormalizeRules`; `none` is a malformed sentinel.
unfoldable pub normal_action : ℕ → Action → Option Action
normal_action m (pos a) = some (if ltb 5 a || has_bit m a then action_get_new else pos a)
normal_action m (negsuc a) = if ltb 2 a then none else some (negsuc a)

unfoldable pub normal_from : ℕ → ℕ → RuleTable → Result RuleTable
normal_from zero m r = ok r
normal_from (suc left) m r = elim (normal_action m (r m)) [
  | none ↦ err (bad_rule_sentinel m)
  | some a ↦ normal_from left (m + 1) (update r m a)
]

-- `NormalizeRules`
unfoldable pub normalize_rules : RuleTable → Result RuleTable
normalize_rules r = elim (normal_from 64 0 r) [ err e ↦ err e | ok n ↦ ok (install_forced n) ]

-- The `switch` of `ConfigureWorm`.
unfoldable pub install : ControllerKind → ℕ → Worm → Worm
install controller_asleep seed w = record w { alive = false; rules = install_forced w.rules }
install controller_new seed w = record w {
  alive = true;
  frozen = false;
  rules = install_forced (λ m. action_get_new);
  rule_uses = λ m. 0;
}
install controller_auto seed w = record w {
  alive = true;
  frozen = false;
  rules = install_forced (λ m. action_do_ai);
  rule_uses = λ m. 0;
}
install controller_wild seed w = record w {
  alive = true;
  frozen = true;
  rules = install_forced (fill_wild w.rules seed);
}
install controller_same seed w = record w { alive = true; rules = install_forced w.rules }
install controller_named seed w = record w { alive = true; rules = install_forced w.rules }
install (unknown_controller k) seed w = w

-- The assignments of `ConfigureWorm` before its `switch`.
unfoldable pub prepare : Worm → ControllerKind → ℕ → Worm
prepare w kind seed = record w {
  controller = kind;
  brain_seed = seed;
  brain_version = "xorshift-v1";
  brain_id = if str_eq w.brain_id "" then w.id <> ":brain" else w.brain_id;
  crix = if w.crix == 0 && w.previous == 0 then no_move else w.crix;
  previous = no_move;
}

-- `ConfigureWorm`, for a worm that is not nil: the worm as it is left, and the error.
unfoldable pub configure_worm : Worm → ControllerKind → ℕ → Worm × Option EngineError
configure_worm w kind seed =
    let w' = install kind seed (prepare w kind seed) in
    if not (valid_kind kind)
    then (w, some (unknown_kind kind))
    else elim (validate_rules w'.rules) [
      | some fault ↦ (w, some (rules_fault fault))
      | none ↦ (w', none)
    ]

configure_from : ℕ → List ControllerKind → ℕ → List Worm → Result (List Worm)
configure_from i (k ∷ ks) seed (w ∷ ws) =
    let (w', e) = configure_worm w k (u64 (seed + i)) in
    let rest = configure_from (i + 1) ks seed ws in
    elim e [
      | some fault ↦ err fault
      | none ↦ elim rest [ err fault ↦ err fault | ok ws' ↦ ok (w' ∷ ws') ]
    ]
configure_from i _ seed ws = ok ws

-- `State.ConfigureControllers`: all the worms, or none.
unfoldable pub configure_controllers : State → List ControllerKind → ℕ → State × Option EngineError
unfolding configure_from
configure_controllers s kinds seed =
    if not (length kinds == length s.worms)
    then (s, some controller_count)
    else elim (configure_from 0 kinds seed s.worms) [
      | err e ↦ (s, some e)
      | ok ws ↦ (record s { worms = ws }, none)
    ]

normalize_worms : List Worm → Result (List Worm)
normalize_worms [] = ok []
normalize_worms (w ∷ ws) =
    let rest = normalize_worms ws in
    elim (normalize_rules w.rules) [
      | err e ↦ err e
      | ok r ↦ elim rest [ err e ↦ err e | ok ws' ↦ ok (record w { rules = r } ∷ ws') ]
    ]

-- `State.NormalizeControllers`
unfoldable pub normalize_controllers : State → State × Option EngineError
unfolding normalize_worms
normalize_controllers s = elim (normalize_worms s.worms) [
  | err e ↦ (s, some e)
  | ok ws ↦ (record s { worms = ws }, none)
]

-- `State.Lookup`
unfoldable pub lookup_rule : State → String → Result Action
lookup_rule s name = elim (find_worm s.worms name) [
  | none ↦ err no_such_worm
  | some w ↦ ok (if not w.alive then action_die else w.rules (bit_and (mask_at s w.position) 63))
]
