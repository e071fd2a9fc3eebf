-- ===== src/Engine/Turns/Invariant.antt =====
-- The rounds keep the invariant, on every board and on every outcome.
use worms_ng.Prelude.{
  List, Option-cases, String, bit_and, eq_ℤ, get_elem?, if_elim, inl, inr, is_empty, length, modify,
  negsuc, not, option_elim, pos, pos_part, refl, subst, suc, sym, zero, ℕ, ◌-◌, ◌==◌, ◌||◌, ◌∙◌,
  ◌≡◌,
}
use worms_ng.Engine.Auto.{choose_auto}
use worms_ng.Engine.Board.Torus.{Inside}
use worms_ng.Engine.Masks.{mask_at}
use worms_ng.Engine.Moves.{emit, legal_moves, step}
use worms_ng.Engine.Moves.Preserve.{fallen-Wf}
use worms_ng.Engine.Moves.StepLaws.{step-WellFormed}
use worms_ng.Engine.Moves.WellFormed.{WellFormed, Wf, modify-Wf}
use worms_ng.Engine.Turns.{
  SlotEnd, act, advance_after_submit, advance_round, alive_count, await_decision, conclude,
  count_use, end_of, failed, finish_round, kill, learn_auto, next, resume, run_slot, run_slots,
  set_rule, slot_of, submit, submit_refusal, teach, use_rule, waiting,
}
use worms_ng.Engine.Types.{
  Action, Direction, Event, Result, State, Worm, action_die, action_do_ai, action_get_new, board,
  err, ok, to_action, valid_direction,
}
use worms_ng.Prelude.Bits.{has_bit}

-- What holds of the state in which a slot ends.
abbrev pub Ends : (State → Type 0) → SlotEnd → Type 0
Ends P (next s) = P s
Ends P (waiting s) = P s
Ends P (failed e) = Unit

pub kill-WellFormed :
    (s : State) (i : ℕ) (w : Worm) (kind : String) → WellFormed s → WellFormed (kill s i w kind)
unfolding kill emit
kill-WellFormed s i w kind h = fallen-Wf s i h

await_decision-WellFormed :
    (s : State) (i : ℕ) (w : Worm) (m : ℕ) → WellFormed s → WellFormed (await_decision s i w m)
unfolding await_decision emit
await_decision-WellFormed s i w m h = h

-- A change of a worm's table or of its counts keeps the invariant.
keeps_place :
    (s : State) (i : ℕ) (f : Worm → Worm)
    → ((w : Worm) → (f w).id ≡ w.id)
    → ((w : Worm) → (f w).score ≡ w.score)
    → ((w : Worm) → (f w).alive ≡ w.alive)
    → ((w : Worm) → (f w).position ≡ w.position)
    → WellFormed s
    → Wf (board s) s.trails s.territories (modify s.worms i f)
keeps_place s i f same paid live place h =
    modify-Wf (board s) s.trails s.territories s.worms i f same paid
      (λ w g alive.
        subst (Inside (board s)) (sym (place w)) (h.worms_ok.on_board i g (sym (live w) ∙ alive)))
      h

pub learn_auto-WellFormed :
    (s : State) (i : ℕ) (w : Worm) (m : ℕ) (a : Action)
    → WellFormed s
    → WellFormed (learn_auto s i w m a)
unfolding learn_auto emit
learn_auto-WellFormed s i w m a h =
    if_elim WellFormed w.frozen (λ e. h)
      (λ e. keeps_place s i (λ v. set_rule v m a) (λ v. refl) (λ v. refl) (λ v. refl) (λ v. refl) h)

pub use_rule-WellFormed :
    (s : State) (i : ℕ) (w : Worm) (m : ℕ) (a : Action)
    → WellFormed s
    → WellFormed (use_rule s i w m a)
unfolding use_rule emit
use_rule-WellFormed s i w m a h =
    keeps_place s i (λ v. count_use v m) (λ v. refl) (λ v. refl) (λ v. refl) (λ v. refl) h

pub end_of-Ends : (P : State → Type 0) (r : State × Result Event) → P r.0 → Ends P (end_of r)
end_of-Ends P (s, ok e) h = h
end_of-Ends P (s, err e) h = tt

act-WellFormed :
    (s : State) (i : ℕ) (w : Worm) (whole m : ℕ) (a : Action)
    → WellFormed s
    → Ends WellFormed (act s i w whole m a)
unfolding act
act-WellFormed s i w whole m (negsuc a) h =
    if_elim (Ends WellFormed) (eq_ℤ (negsuc a) action_die)
      (λ e. kill-WellFormed s i w "worm_died" h) (λ e. tt)
act-WellFormed s i w whole m (pos a) h =
    if_elim (Ends WellFormed) (not (valid_direction a) || has_bit whole a) (λ e. tt)
      (λ e.
        end_of-Ends WellFormed (step (use_rule s i w m (pos a)) w.id a) (
          step-WellFormed (use_rule s i w m (pos a)) w.id a
            (use_rule-WellFormed s i w m (pos a) h)))

run_slot-WellFormed :
    (s : State) (i : ℕ) (w : Worm) → WellFormed s → Ends WellFormed (run_slot s i w)
unfolding run_slot
run_slot-WellFormed s₀ i w h =
    let s : State = record s₀ { active_slot = pos i } in
    let whole = mask_at s w.position in
    let m = bit_and whole 63 in
    let a = w.rules m in
    let auto = to_action (choose_auto s i w) in
    if_elim (Ends WellFormed) (not w.alive) (λ e. h)
      (λ e.
        if_elim (Ends WellFormed) (is_empty (legal_moves s w.id))
          (λ e. kill-WellFormed s i w "worm_blocked" h)
          (λ e.
            if_elim (Ends WellFormed) (eq_ℤ a action_get_new)
              (λ e. await_decision-WellFormed s i w m h)
              (λ e.
                if_elim (Ends WellFormed) (eq_ℤ a action_do_ai)
                  (λ e.
                    act-WellFormed (learn_auto s i w m auto) i w whole m auto
                      (learn_auto-WellFormed s i w m auto h))
                  (λ e. act-WellFormed s i w whole m a h))))

Ends-chain :
    (P : State → Type 0) (r : SlotEnd) (f : State → SlotEnd)
    → Ends P r
    → ((s : State) → P s → Ends P (f s))
    → Ends P (elim r [ next s' ↦ f s' | waiting s' ↦ waiting s' | failed e ↦ failed e ])
Ends-chain P (next s) f h g = g s h
Ends-chain P (waiting s) f h g = h
Ends-chain P (failed e) f h g = tt

run_slots-WellFormed :
    (left i : ℕ) (s : State) → WellFormed s → Ends WellFormed (run_slots left i s)
unfolding run_slots
run_slots-WellFormed zero i s h = h
run_slots-WellFormed (suc left) i s h = elim (Option-cases (get_elem? s.worms i)) [
  | inl absent ↦ rw (absent, run_slots) h
  | inr (w, here) ↦
      rw (here, run_slots)
        (Ends-chain WellFormed (run_slot s i w) (run_slots left (suc i))
          (run_slot-WellFormed s i w h) (run_slots-WellFormed left (suc i)))
]

finish_round-WellFormed : (s : State) → WellFormed s → WellFormed (finish_round s)
unfolding finish_round emit
finish_round-WellFormed s h = if_elim WellFormed (alive_count s.worms == 0) (λ e. h) (λ e. h)

conclude-WellFormed :
    (saved : State) (before : ℕ) (r : SlotEnd)
    → WellFormed saved
    → Ends WellFormed r
    → WellFormed (conclude saved before r).0
unfolding conclude
conclude-WellFormed saved before (next s) h k = finish_round-WellFormed s k
conclude-WellFormed saved before (waiting s) h k = k
conclude-WellFormed saved before (failed e) h k = h

-- What holds of the state that a call returns.
abbrev Leaves : (State → Type 0) → State × Result (List Event) → Type 0
Leaves P r = P r.0

rounds_WellFormed :
    (saved s : State) (before left i : ℕ)
    → WellFormed saved
    → WellFormed s
    → WellFormed (conclude saved before (run_slots left i s)).0
rounds_WellFormed saved s before left i h k =
    conclude-WellFormed saved before (run_slots left i s) h (run_slots-WellFormed left i s k)

-- AdvanceRound keeps the invariant, whether the round ends, waits for a decision or fails and is
-- rolled back.
pub advance_round-WellFormed : (s : State) → WellFormed s → WellFormed (advance_round s).0
unfolding advance_round
advance_round-WellFormed s h =
    let start = pos_part s.active_slot in
    option_elim (Leaves WellFormed) s.pending
      (λ ready.
        if_elim (Leaves WellFormed) s.game_over (λ e. h)
          (λ e. rounds_WellFormed s s (length s.events) (length s.worms - start) start h h))
      (λ p e. h)

teach-WellFormed :
    (s : State) (i : ℕ) (w : Worm) (m : ℕ) (d : Direction)
    → WellFormed s
    → WellFormed (teach s i w m d)
unfolding teach use_rule emit
teach-WellFormed s i w m d h =
    let f = λ (v : Worm). set_rule v m (to_action d) in
    let g = λ (v : Worm). count_use v m in
    let taught = keeps_place s i f (λ v. refl) (λ v. refl) (λ v. refl) (λ v. refl) h in
    keeps_place (record s { worms = modify s.worms i f }) i g (λ v. refl) (λ v. refl) (λ v. refl)
      (λ v. refl) taught

resume-WellFormed :
    (saved : State) (before : ℕ) (r : State × Result Event)
    → WellFormed saved
    → WellFormed r.0
    → WellFormed (resume saved before r).0
unfolding resume advance_after_submit
resume-WellFormed saved before (s, ok e) h k =
    let start = pos_part s.active_slot in
    rounds_WellFormed saved s before (length s.worms - start) start h k
resume-WellFormed saved before (s, err e) h k = h

-- Submit keeps the invariant, on every refusal, on a failed step and when the rest of the round
-- has run.
pub submit-WellFormed : (s : State) (d : Direction) → WellFormed s → WellFormed (submit s d).0
unfolding submit
submit-WellFormed s d h =
    option_elim (Leaves WellFormed) s.pending (λ e. h)
      (λ p e.
        option_elim (Leaves WellFormed) (slot_of p) (λ e. h)
          (λ i e.
            option_elim (Leaves WellFormed) (get_elem? s.worms i) (λ e. h)
              (λ w here.
                option_elim (Leaves WellFormed) (submit_refusal s p w d)
                  (λ accepted.
                    resume-WellFormed s (length s.events) (step (teach s i w p.mask d) w.id d) h (
                      step-WellFormed (teach s i w p.mask d) w.id d
                        (teach-WellFormed s i w p.mask d h)))
                  (λ fault e. h))))
