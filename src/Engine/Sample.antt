-- ===== src/Engine/Sample.antt =====
-- A small board of the engine, on which the theorems are applied.
use worms_ng.Prelude.{
  [], ap, arith, false, get_elem?, is_blank, is_odd, negsuc, none, pos, refl, some, subst, suc, sym,
  true, zero, ℕ, ◌+ℤ◌, ◌∙◌, ◌∷◌, ◌≡◌,
}
use worms_ng.Engine.Board.{in_bounds}
use worms_ng.Engine.Board.Torus.{Inside, IsSound}
use worms_ng.Engine.Masks.{reciprocal_ok}
use worms_ng.Engine.Moves.WellFormed.{WellFormed, WormsOk}
use worms_ng.Engine.Rules.{
  check_action, check_forced, check_table, force_all, install_forced, rules_empty, validate_rules,
}
use worms_ng.Engine.Setup.{
  check_id, check_owners, check_scores, check_trails, check_worm, check_worms, validate,
}
use worms_ng.Engine.Types.{
  Decision, Point, State, Worm, action_do_ai, board, classic_rules, controller_auto, no_move,
  toroidal,
}
use worms_ng.Prelude.Bits.{has_bit}

abbrev pub corner : Point
corner = record { q = pos 1; r = pos 1 }

-- An automatic worm.
abbrev pub solo : Worm
solo = record {
  id = "a";
  color = "red";
  position = corner;
  alive = true;
  score = pos 0;
  previous = no_move;
  crix = no_move;
  controller = controller_auto;
  rules = install_forced (λ m. action_do_ai);
  rule_uses = λ m. 0;
  brain_id = "a:brain";
  brain_version = "xorshift-v1";
  brain_seed = 7;
  frozen = false;
}

-- The classic torus, at a size of four by four.
abbrev pub meadow : State
meadow = record {
  width = pos 4;
  height = pos 4;
  topology = toroidal;
  mode = classic_rules;
  tick = 0;
  round = 0;
  worms = solo ∷ [];
  trails = [];
  territories = [];
  events = [];
  active_slot = negsuc 0;
  pending = none;
  game_over = false;
  provenance = record { rule_set = "classic"; source = ""; version = "v1" };
}

-- The decision that a GETNEW rule asks for.
abbrev pub asked : Decision
asked = record {
  worm_id = "a";
  mask = 0;
  slot = pos 0;
  request = 1;
  reason = "unknown_pattern";
  frozen = false;
}

abbrev pub awaiting : State
awaiting = record meadow { pending = some asked }

pub meadow-IsSound : IsSound (board meadow)
unfolding is_odd
meadow-IsSound = record { wide = omega arith; high = omega arith; even_rows = λ c t. refl }

pub corner-Inside : Inside (board meadow) corner
unfolding ◌+ℤ◌
corner-Inside = record {
  left = omega arith;
  right = omega arith;
  top = omega arith;
  bottom = omega arith;
}

pub solo-slot : (i : ℕ) {w : Worm} → get_elem? (solo ∷ []) i ≡ some w → (i ≡ 0) × (w ≡ solo)
solo-slot zero h = (refl, ground arith)
solo-slot (suc i) h = cc

pub meadow-WormsOk : WormsOk (board meadow) (solo ∷ [])
meadow-WormsOk = record {
  named = λ i g e.
      let (slot, same) = solo-slot i g in
      let blank : "a" ≡ "" = sym (ap (λ (x : Worm). x.id) same) ∙ e in cc;
  distinct = λ i j g g' e. (solo-slot i g).0 ∙ sym (solo-slot j g').0;
  on_board = λ i g live.
      subst (λ (x : Worm). Inside (board meadow) x.position) (sym (solo-slot i g).1) corner-Inside;
}

pub meadow-WellFormed : WellFormed meadow
meadow-WellFormed = record {
  sound = meadow-IsSound;
  territories_ok = λ p t l. absurd (ground arith);
  trails_ok = λ e c. absurd (ground arith);
  worms_ok = meadow-WormsOk;
  scores_ok = λ i w g. ap (λ (x : Worm). x.score) (solo-slot i g).1;
}

pub meadow-valid : validate meadow ≡ none
unfolding validate check_worms check_trails check_owners check_scores reciprocal_ok is_odd
    check_worm check_id in_bounds ◌+ℤ◌ rules_empty validate_rules check_table check_action
    check_forced install_forced force_all has_bit is_blank
meadow-valid = refl
