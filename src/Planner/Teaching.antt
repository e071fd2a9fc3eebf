-- ===== src/Planner/Teaching.antt =====
-- What `Plan` and `Teach` of planner.go promise of the state.
use worms_ng.Prelude.{
  All, Bool-cases, Option, String, ap, arith, bit_and, eq_ℤ, eq_ℤ_iff, false, get_elem?, if_elim,
  inl, inr, is_empty, none, not, option_elim, refl, some, subst, sym, ℕ, ◌+◌, ◌<◌, ◌∙◌, ◌≡◌, ◌⊎◌,
}
use worms_ng.Engine.Auto.Choice.{Listed}
use worms_ng.Engine.Masks.{find_worm, raw_mask, worm_index}
use worms_ng.Engine.Moves.{legal_moves}
use worms_ng.Engine.Observe.{Observation, observe}
use worms_ng.Engine.Types.{Direction, State, Worm, action_get_new, to_action, u64}
use worms_ng.Planner.{Config, Decision, Planned, Planner, planned, unplanned}
use worms_ng.Planner.Choice.{BestMove, plan_unknown-BestMove}
use worms_ng.Planner.Local.{local_planning_state}
use worms_ng.Planner.Plans.{Hashes, plan, plan_unknown, plan_view}
use worms_ng.Planner.View.{legal_moves-valid, local_planning_state-legal}

-- A plan for the mask, if there is one, is a legal move of the state.
LegalPlan : ℕ → State → String → Planned Decision → Type 0
LegalPlan mask s name (unplanned e) = Unit
LegalPlan mask s name (planned d) =
    (e : Direction) × ((d.action ≡ to_action e) × (d.mask ≡ mask) × Listed (legal_moves s name) e)

of_best :
    (mask : ℕ) (c : Config) (s t : State) (i : ℕ) (w : Worm) (p : Planned Decision)
    → ((d : Direction) → Listed (legal_moves s w.id) d → Listed (legal_moves t w.id) d)
    → BestMove mask c s i w p
    → LegalPlan mask t w.id p
unfolding BestMove LegalPlan
of_best mask c s t i w (unplanned e) keeps h = tt
of_best mask c s t i w (planned p) keeps (d, (action, masked, listed, best)) =
    (d, (action, masked, keeps d listed))

plan_unknown-LegalPlan :
    (h : Hashes) (c : Config) (s t : State) (i mask : ℕ) (local : String) (w : Worm)
    → get_elem? s.worms i ≡ some w
    → ((d : Direction) → Listed (legal_moves s w.id) d → Listed (legal_moves t w.id) d)
    → LegalPlan mask t w.id (plan_unknown h c s i mask local)
unfolding LegalPlan plan_unknown
plan_unknown-LegalPlan h c s t i mask local w found keeps =
    elim (Bool-cases (is_empty (legal_moves s w.id))) [
      | inl none' ↦ rw (found, plan_unknown) (rw none' tt)
      | inr free ↦
          of_best mask c s t i w _ keeps (plan_unknown-BestMove h c s i mask local w found free)
    ]

-- What is observed of a worm are its legal moves.
Sees : State → String → Option Observation → Type 0
Sees s name none = Unit
Sees s name (some obs) = obs.legal ≡ legal_moves s name

observe-Sees : (s : State) (name : String) → Sees s name (observe s name)
unfolding observe Sees
observe-Sees s name = option_elim (Sees s name) (find_worm s.worms name) (λ e. tt) (λ w e. refl)

local_keeps :
    (s : State) (w : Worm) (obs : Observation) (d : Direction)
    → Sees s w.id (some obs)
    → Listed (legal_moves (local_planning_state s w obs) w.id) d
    → Listed (legal_moves s w.id) d
unfolding Sees
local_keeps s w obs d sees h =
    let valid = subst (All (λ e. e < 6)) (sym sees) (legal_moves-valid s w.id) in
    subst (λ ds. Listed ds d) sees (local_planning_state-legal s w obs d valid h)

local_first :
    (s : State) (w : Worm) (obs : Observation)
    → get_elem? (local_planning_state s w obs).worms 0 ≡ some w
unfolding local_planning_state
local_first s w obs = refl

plan_view-LegalPlan :
    (h : Hashes) (c : Config) (s : State) (i : ℕ) (w : Worm) (mask : ℕ)
    → get_elem? s.worms i ≡ some w
    → LegalPlan mask s w.id (plan_view h c s i w mask)
unfolding plan_view LegalPlan
plan_view-LegalPlan h c s i w mask found =
    if_elim (LegalPlan mask s w.id) c.capabilities.global_state
      (λ e. plan_unknown-LegalPlan h c s s i mask "" w found (λ d l. l))
      (λ e.
        option_elim (LegalPlan mask s w.id) (observe s w.id) (λ e. tt)
          (λ obs seen.
            plan_unknown-LegalPlan h c (local_planning_state s w obs) s 0 mask (h.local_hash obs c)
              w (local_first s w obs)
              (λ d l. local_keeps s w obs d (subst (Sees s w.id) seen (observe-Sees s w.id)) l)))

-- What `Plan` returns: nothing was planned for a pattern that is known or frozen, and no call was
-- counted; otherwise one call, and a legal move of the worm for its unknown pattern.
unfoldable pub PlanOk : Planner → State → String → Planner × Planned Decision → Type 0
PlanOk p s name (p', unplanned e) = (p' ≡ p) ⊎ (p' ≡ record p { calls = u64 (p.calls + 1) })
PlanOk p s name (p', planned d) =
    (p' ≡ record p { calls = u64 (p.calls + 1) })
    × ((i : ℕ) × ((w : Worm) × ((e : Direction) × ((worm_index s.worms name ≡ some i)
              × (get_elem? s.worms i ≡ some w)
              × (w.frozen ≡ false)
              × (w.rules d.mask ≡ action_get_new)
              × (d.mask ≡ bit_and (raw_mask s w.position) 63)
              × (d.action ≡ to_action e)
              × Listed (legal_moves s w.id) e))))

planned_ok :
    (p : Planner) (s : State) (name : String) (i : ℕ) (w : Worm) (r : Planned Decision)
    → worm_index s.worms name ≡ some i
    → get_elem? s.worms i ≡ some w
    → w.frozen ≡ false
    → w.rules (bit_and (raw_mask s w.position) 63) ≡ action_get_new
    → LegalPlan (bit_and (raw_mask s w.position) 63) s w.id r
    → PlanOk p s name (record p { calls = u64 (p.calls + 1) }, r)
unfolding LegalPlan PlanOk
planned_ok p s name i w (unplanned e) h found thawed new l = inr refl
planned_ok p s name i w (planned d) h found thawed new (e, (action, masked, listed)) =
    (refl, (i, (w, (e, (h, found, thawed, ap w.rules masked ∙ new, masked, action, listed)))))

-- A decision of Plan is for the unknown pattern at the place of a worm that is not frozen, counts
-- one call, and is one of the worm's legal moves in the state, also when it was planned in the
-- local view; an error of Plan counts at most one call.
pub plan-PlanOk :
    (h : Hashes) (p : Planner) (s : State) (name : String) → PlanOk p s name (plan h p s name)
unfolding plan PlanOk
plan-PlanOk h p s name =
    let P = PlanOk p s name in
    option_elim P (worm_index s.worms name) (λ e. inl refl)
      (λ i here.
        option_elim P (get_elem? s.worms i) (λ e. inl refl)
          (λ w found.
            if_elim P w.frozen (λ e. inl refl)
              (λ thawed.
                if_elim P (not (eq_ℤ (w.rules (bit_and (raw_mask s w.position) 63)) action_get_new))
                  (λ e. inl refl)
                  (λ known.
                    planned_ok p s name i w _ here found thawed
                      ((eq_ℤ_iff _ action_get_new).0 (ground (arith, known)))
                      (plan_view-LegalPlan h p.config s i w _ found)))))
