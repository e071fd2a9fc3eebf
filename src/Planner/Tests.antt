-- ===== src/Planner/Tests.antt =====
-- The theorems of the planner at work on a small board.
use worms_ng.Prelude.{
  [], ap, arith, get_elem?, is_odd, pos, refl, rem, some, subst, suc, sym, zero, ℕ, ◌+ℤ◌, ◌-ℤ◌, ◌∙◌,
  ◌∷◌, ◌≡◌, ◌≤ℤ◌,
}
use worms_ng.Engine.Board.{in_bounds, neighbor}
use worms_ng.Engine.Board.Torus.{Inside}
use worms_ng.Engine.Masks.{find_worm, has_trail, mask_of, trail_mask}
use worms_ng.Engine.Moves.{legal_moves}
use worms_ng.Engine.Moves.WellFormed.{WellFormed}
use worms_ng.Engine.Rules.{install_forced}
use worms_ng.Engine.Sample.{corner-Inside, meadow, meadow-IsSound, solo}
use worms_ng.Engine.Types.{State, Worm, action_get_new, board}
use worms_ng.Planner.{
  Config, Planner, default_config, fill_config, normal, normalize, normalized, settle_config,
}
use worms_ng.Planner.Choice.{BestMove, plan_unknown-BestMove}
use worms_ng.Planner.Configs.{normalize-idempotent}
use worms_ng.Planner.Plans.{Hashes, plan, plan_unknown, teach_rule}
use worms_ng.Planner.Taught.{Learns, teach_rule-Learns}
use worms_ng.Planner.Teaching.{PlanOk, plan-PlanOk}
use worms_ng.Prelude.Bits.{gather, has_bit}

-- A worm that knows only the forced moves.
abbrev pupil : Worm
pupil = record solo { rules = install_forced (λ m. action_get_new) }

abbrev field : State
field = record meadow { worms = pupil ∷ [] }

pupil-slot : (i : ℕ) {w : Worm} → get_elem? (pupil ∷ []) i ≡ some w → (i ≡ 0) × (w ≡ pupil)
pupil-slot zero h = (refl, ground arith)
pupil-slot (suc i) h = cc

field-WellFormed : WellFormed field
field-WellFormed = record {
  sound = meadow-IsSound;
  territories_ok = λ p t l. absurd (ground arith);
  trails_ok = λ e c. absurd (ground arith);
  worms_ok = record {
    named = λ i g e.
        let (slot, same) = pupil-slot i g in
        let blank : "a" ≡ "" = sym (ap (λ (x : Worm). x.id) same) ∙ e in cc;
    distinct = λ i j g g' e. (pupil-slot i g).0 ∙ sym (pupil-slot j g').0;
    on_board = λ i g live.
        subst (λ (x : Worm). Inside (board meadow) x.position) (sym (pupil-slot i g).1)
          corner-Inside;
  };
  scores_ok = λ i w g. ap (λ (x : Worm). x.score) (pupil-slot i g).1;
}

abbrev hashes : Hashes
hashes = record {
  tie_word = λ c local s name mask. 5;
  local_hash = λ o c. "local";
  state_hash = λ s. "state";
}

abbrev looks_ahead : Config
looks_ahead = record default_config { mode = "lookahead"; depth = pos 2 }

abbrev teacher : Planner
teacher = record { config = default_config; calls = 0 }

plan_unknown-BestMove_example :
    BestMove 0 looks_ahead field 0 pupil (plan_unknown hashes looks_ahead field 0 0 "")
unfolding legal_moves find_worm has_bit mask_of trail_mask gather has_trail in_bounds neighbor ◌+ℤ◌
    rem ◌-ℤ◌ is_odd
plan_unknown-BestMove_example =
    plan_unknown-BestMove hashes looks_ahead field 0 0 "" pupil refl refl

plan-PlanOk_example : PlanOk teacher field "a" (plan hashes teacher field "a")
plan-PlanOk_example = plan-PlanOk hashes teacher field "a"

teach_rule-Learns_example : Learns field "a" (teach_rule hashes teacher field "a")
teach_rule-Learns_example = teach_rule-Learns hashes teacher field "a" field-WellFormed refl

normalize-idempotent_example :
    (normalize default_config ≡ normal default_config)
    × (pos 1 ≤ℤ default_config.depth)
    × (default_config.depth ≤ℤ pos 8)
unfolding normalize fill_config settle_config normalized
normalize-idempotent_example = normalize-idempotent default_config default_config refl
