-- ===== src/Planner/Taught.antt =====
-- What `Teach` of planner.go leaves for `Lookup`, where no decision is awaited.
use worms_ng.Prelude.{
  ==_iff, Bool, List, String, [], ap, arith, bit_and, eq_ℤ, false, get_elem?, get_elem?-modify_self,
  if_elim, modify, none, option_elim, refl, some, subst, suc, sym, true, zero, ℕ, ◌&&◌, ◌<◌, ◌==◌,
  ◌∙◌, ◌∷◌, ◌≡◌,
}
use worms_ng.Engine.Auto.Choice.{Listed}
use worms_ng.Engine.Masks.{find_worm, mask_at, raw_mask, worm_index}
use worms_ng.Engine.Moves.{legal_moves}
use worms_ng.Engine.Moves.Legal.{legal_moves_lem}
use worms_ng.Engine.Moves.Torus.{find_worm-of_slot, mask_at_lt}
use worms_ng.Engine.Moves.WellFormed.{WellFormed}
use worms_ng.Engine.Rules.{lookup_rule}
use worms_ng.Engine.Turns.{set_rule}
use worms_ng.Engine.Types.{Action, Direction, State, Worm, action_get_new, board, ok, to_action}
use worms_ng.Planner.{Decision, Planned, Planner, planned, unplanned}
use worms_ng.Planner.Choice.{All_listed}
use worms_ng.Planner.Plans.{Hashes, install_plan, lookup_taught, plan, teach_rule}
use worms_ng.Planner.Teaching.{PlanOk, plan-PlanOk}
use worms_ng.Planner.View.{legal_moves-valid}
use worms_ng.Prelude.Bits.{bit_and_sixty_three}

worm_index-modify :
    (ws : List Worm) (i : ℕ) (f : Worm → Worm) (name : String)
    → ((w : Worm) → (f w).id ≡ w.id)
    → worm_index (modify ws i f) name ≡ worm_index ws name
unfolding worm_index
worm_index-modify [] i f name keeps = refl
worm_index-modify (w ∷ ws) zero f name keeps = rw (keeps w) refl
worm_index-modify (w ∷ ws) (suc i) f name keeps = rw (worm_index-modify ws i f name keeps) refl

alive_of : (a b c : Bool) → (a && b && c) ≡ true → a ≡ true
alive_of a b c h = ground arith

-- A worm with a legal move is alive.
mover_alive :
    (s : State) (w : Worm) (d : Direction)
    → find_worm s.worms w.id ≡ some w
    → Listed (legal_moves s w.id) d
    → w.alive ≡ true
mover_alive s w d found l = alive_of _ _ _ (sym (legal_moves_lem s w.id d found) ∙ l)

-- The state that has learned the rule, and what was known of the worm.
record Lesson (s : State) (name : String) (i : ℕ) (w : Worm) (d : Decision) : Type 0 where
  indexed : worm_index s.worms name ≡ some i
  here : get_elem? s.worms i ≡ some w
  thawed : w.frozen ≡ false
  masked : d.mask ≡ bit_and (mask_at s w.position) 63
  live : w.alive ≡ true
  small : bit_and d.mask 63 ≡ d.mask
  move : (eq_ℤ d.action action_get_new) ≡ false

abbrev taught : State → ℕ → Decision → State
taught s i d = record s { worms = modify s.worms i (λ w. set_rule w d.mask d.action) }

lookup_rule-taught :
    (s : State) (name : String) (i : ℕ) (w : Worm) (d : Decision)
    → Lesson s name i w d
    → worm_index (taught s i d).worms name ≡ some i
    → get_elem? (taught s i d).worms i ≡ some (set_rule w d.mask d.action)
    → lookup_rule (taught s i d) name ≡ ok d.action
unfolding lookup_rule find_worm
lookup_rule-taught s name i w d l index now =
    let t = taught s i d in
    let found : find_worm t.worms name ≡ some (set_rule w d.mask d.action) =
      rw (index, find_worm) now in
    let entry : (bit_and (mask_at s w.position) 63 == d.mask) ≡ true =
      (==_iff _ _).1 (sym l.masked) in
    rw (found, lookup_rule) (rw (l.live) (rw entry refl))

lookup_taught-taught :
    (s : State) (name : String) (i : ℕ) (w : Worm) (d : Decision)
    → Lesson s name i w d
    → lookup_taught (taught s i d) name ≡ planned d.action
unfolding lookup_taught
lookup_taught-taught s name i w d l =
    let t = taught s i d in
    let index : worm_index t.worms name ≡ some i =
      worm_index-modify s.worms i (λ w. set_rule w d.mask d.action) name (λ w. refl) ∙ l.indexed in
    let now : get_elem? t.worms i ≡ some (set_rule w d.mask d.action) =
      get_elem?-modify_self s.worms i (λ w. set_rule w d.mask d.action) l.here in
    let ruled = lookup_rule-taught s name i w d l index now in
    rw (index, lookup_taught) (rw ruled (rw now (rw (l.move) (rw (l.thawed) refl))))

direction_action : (e : Direction) → e < 6 → (eq_ℤ (to_action e) action_get_new) ≡ false
direction_action e h = ground arith

real_move :
    (s : State) (w : Worm) (e : Direction) (a : Action)
    → Listed (legal_moves s w.id) e
    → a ≡ to_action e
    → (eq_ℤ a action_get_new) ≡ false
real_move s w e a l h =
    let fits = All_listed (λ e. e < 6) (legal_moves s w.id) e (legal_moves-valid s w.id) l in
    ap (λ x. eq_ℤ x action_get_new) h ∙ direction_action e fits

-- A plan that `Plan` has made, in a state that keeps the invariant, is a lesson.
Lesson-of_plan :
    (h : Hashes) (p p' : Planner) (s : State) (name : String) (d : Decision)
    → WellFormed s
    → plan h p s name ≡ (p', planned d)
    → (i : ℕ) × ((w : Worm) × Lesson s name i w d)
unfolding PlanOk raw_mask
Lesson-of_plan h p p' s name d wf made =
    let (counted, (i, (w, (e, (index, here, thawed, new, masked, action, legal))))) =
      subst (PlanOk p s name) made (plan-PlanOk h p s name) in
    let found = find_worm-of_slot (board s) s.worms i wf.worms_ok here in
    let fits = bit_and_sixty_three (mask_at s w.position) (mask_at_lt s w.position wf) in
    let once : d.mask ≡ bit_and (mask_at s w.position) 63 = masked ∙ ap (λ m. bit_and m 63) fits in
    (
      i,
      (
        w,
        record {
          indexed = index;
          here = here;
          thawed = thawed;
          masked = once;
          live = mover_alive s w e found legal;
          small = ap (λ m. bit_and m 63) once ∙ ap (λ m. bit_and m 63) fits ∙ sym once;
          move = real_move s w e d.action legal action;
        },
      ),
    )

-- What `Teach` leaves where nothing is awaited: the state, or one new entry in the table of one
-- worm, which `Lookup` then returns.
unfoldable pub Learns : State → String → Planner × State × Planned Decision → Type 0
Learns s name (p', s', unplanned e) = s' ≡ s
Learns s name (p', s', planned d) =
    (lookup_taught s' name ≡ planned d.action) × ((i : ℕ) × (s' ≡ taught s i d))

install_plan-Learns :
    (h : Hashes) (p : Planner) (s : State) (name : String) (i : ℕ) (r : Planner × Planned Decision)
    → WellFormed s
    → worm_index s.worms name ≡ some i
    → plan h p s name ≡ r
    → Learns s name (install_plan s i r)
unfolding install_plan Learns
install_plan-Learns h p s name i (p', unplanned e) wf index made = refl
install_plan-Learns h p s name i (p', planned d) wf index made =
    let (j, (w, lesson)) = Lesson-of_plan h p p' s name d wf made in
    let same : i ≡ j = ground (arith, index, lesson.indexed) in
    let there : (install_plan s i (p', planned d)).1 ≡ taught s j d =
      rw same (rw (lesson.small) refl) in
    (
      ap (λ (t : State). lookup_taught t name) there ∙ lookup_taught-taught s name j w d lesson,
      (j, there),
    )

-- In a state that keeps the invariant and awaits no decision, Teach leaves the state as it was, or
-- sets one entry in the table of one worm, and Lookup then returns the action that was planned.
pub teach_rule-Learns :
    (h : Hashes) (p : Planner) (s : State) (name : String)
    → WellFormed s
    → s.pending ≡ none
    → Learns s name (teach_rule h p s name)
unfolding teach_rule Learns
teach_rule-Learns h p s name wf free =
    let L = Learns s name in
    option_elim L (worm_index s.worms name) (λ e. refl)
      (λ i index.
        option_elim L (get_elem? s.worms i) (λ e. refl)
          (λ w here.
            if_elim L w.frozen (λ e. refl)
              (λ thawed.
                option_elim L s.pending
                  (λ e. install_plan-Learns h p s name i (plan h p s name) wf index refl)
                  (λ q e. absurd (ground (arith, free, e))))))
