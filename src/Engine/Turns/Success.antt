-- ===== src/Engine/Turns/Success.antt =====
-- Whole rounds on the classic torus.
use worms_ng.Prelude.{
  List, Option-cases, ap, arith, bit_and, drop, eq_ℤ, false, get_elem?, if_elim, inl, inr, is_empty,
  length, none, not, option_elim, pos, pos_part, refl, some, subst, suc, sym, true, zero, ℕ, ◌-◌,
  ◌<◌, ◌∙◌, ◌≡◌,
}
use worms_ng.Engine.Auto.{choose_auto}
use worms_ng.Engine.Masks.{mask_at}
use worms_ng.Engine.Moves.{emit, legal_moves}
use worms_ng.Engine.Moves.Torus.{mask_at_lt}
use worms_ng.Engine.Moves.WellFormed.{WellFormed}
use worms_ng.Engine.Rules.{check_action, validate_rules}
use worms_ng.Engine.Rules.Valid.{validate_rules-ValidTable}
use worms_ng.Engine.Turns.{
  SlotEnd, act, advance_round, conclude, failed, finish_round, learn_auto, next, run_slot,
  run_slots, waiting,
}
use worms_ng.Engine.Turns.Progress.{
  GoesOn, Playable, act-GoesOn, auto_free, kill-Playable, learn_auto-Playable, learned-Standing,
}
use worms_ng.Engine.Types.{
  Action, Direction, Event, Point, Result, State, Worm, action_do_ai, action_get_new, is_classic,
  is_toroidal, ok, to_action,
}
use worms_ng.Prelude.Bits.{bit_and_sixty_three, has_bit}

action_of : (d : Direction) → d < 6 → to_action d ≡ pos d
action_of d h = ground arith

learned_mask :
    (s : State) (i : ℕ) (w : Worm) (m : ℕ) (a : Action) (p : Point)
    → mask_at s p ≡ mask_at (learn_auto s i w m a) p
unfolding learn_auto emit
learned_mask s i w m a p =
    if_elim (λ (t : State). mask_at s p ≡ mask_at t p) w.frozen (λ e. refl) (λ e. refl)

-- The automatic controller's move.
auto-GoesOn :
    (s : State) (i : ℕ) (w : Worm) (d : Direction)
    → Playable s
    → get_elem? s.worms i ≡ some w
    → w.alive ≡ true
    → d < 6
    → has_bit (mask_at s w.position) d ≡ false
    → let whole = mask_at s w.position in
      let m = bit_and whole 63 in GoesOn (act (learn_auto s i w m (pos d)) i w whole m (pos d))
auto-GoesOn s i w d h here live lt free =
    let whole = mask_at s w.position in
    let m = bit_and whole 63 in
    let small = mask_at_lt s w.position h.wf in
    let cut = bit_and_sixty_three whole small in
    let bare = ap (λ (k : ℕ). has_bit k d) cut ∙ free in
    act-GoesOn (learn_auto s i w m (pos d)) i w whole m (pos d)
      (learn_auto-Playable s i w m d (omega (arith, cut, small)) lt bare h)
      (learned-Standing s i w m (pos d) here live) (learned_mask s i w m (pos d) w.position)
      (unfold check_action in ground arith) (ground arith) (ground arith)

-- The remembered action.
remembered-GoesOn :
    (s : State) (i : ℕ) (w : Worm)
    → Playable s
    → get_elem? s.worms i ≡ some w
    → w.alive ≡ true
    → let whole = mask_at s w.position in
      let m = bit_and whole 63 in
      eq_ℤ (w.rules m) action_get_new ≡ false
      → eq_ℤ (w.rules m) action_do_ai ≡ false
      → GoesOn (act s i w whole m (w.rules m))
remembered-GoesOn s i w h here live new auto =
    let whole = mask_at s w.position in
    let m = bit_and whole 63 in
    let small = mask_at_lt s w.position h.wf in
    let cut = bit_and_sixty_three whole small in
    let fine = (h.tables i w here).entries m (omega (arith, cut, small)) in
    act-GoesOn s i w whole m (w.rules m) h
      (record { now = w; here = here; live = live; named = refl; place = refl }) refl
      (subst (λ (k : ℕ). check_action k (w.rules m) ≡ none) cut fine) new auto

run_slot-GoesOn :
    (s : State) (i : ℕ) (w : Worm)
    → Playable s
    → get_elem? s.worms i ≡ some w
    → GoesOn (run_slot s i w)
unfolding run_slot
run_slot-GoesOn s₀ i w h₀ here =
    let s : State = record s₀ { active_slot = pos i } in
    let h : Playable s = record {
      wf = h₀.wf;
      tables = h₀.tables;
      running = h₀.running;
      classic = h₀.classic;
      torus = h₀.torus;
    } in
    let whole = mask_at s w.position in
    let m = bit_and whole 63 in
    let a = w.rules m in
    let d = choose_auto s i w in
    if_elim GoesOn (not w.alive) (λ e. h)
      (λ alive.
        let live : w.alive ≡ true = ground arith in
        if_elim GoesOn (is_empty (legal_moves s w.id)) (λ e. kill-Playable s i w "worm_blocked" h)
          (λ moves.
            let (lt, free) = auto_free s i w h here moves in
            if_elim GoesOn (eq_ℤ a action_get_new) (λ e. tt)
              (λ new.
                if_elim GoesOn (eq_ℤ a action_do_ai)
                  (λ e.
                    subst (λ (x : Action). GoesOn (act (learn_auto s i w m x) i w whole m x))
                      (sym (action_of d lt)) (auto-GoesOn s i w d h here live lt free))
                  (λ auto. remembered-GoesOn s i w h here live new auto))))

chain-GoesOn :
    (r : SlotEnd) (f : State → SlotEnd)
    → GoesOn r
    → ((s : State) → Playable s → GoesOn (f s))
    → GoesOn (elim r [ next s' ↦ f s' | waiting s' ↦ waiting s' | failed e ↦ failed e ])
chain-GoesOn (next s) f h g = g s h
chain-GoesOn (waiting s) f h g = tt
chain-GoesOn (failed e) f h g = h

run_slots-GoesOn : (left i : ℕ) (s : State) → Playable s → GoesOn (run_slots left i s)
unfolding run_slots
run_slots-GoesOn zero i s h = h
run_slots-GoesOn (suc left) i s h = elim (Option-cases (get_elem? s.worms i)) [
  | inl absent ↦ rw (absent, run_slots) h
  | inr (w, here) ↦
      rw (here, run_slots)
        (chain-GoesOn (run_slot s i w) (run_slots left (suc i)) (run_slot-GoesOn s i w h here)
          (run_slots-GoesOn left (suc i)))
]

-- A call that returns events and no error.
abbrev Succeeds : State × Result (List Event) → Type 0
Succeeds r = (es : List Event) × (r.1 ≡ ok es)

conclude-Succeeds :
    (saved : State) (before : ℕ) (r : SlotEnd) → GoesOn r → Succeeds (conclude saved before r)
unfolding conclude
conclude-Succeeds saved before (next s) h = (drop before (finish_round s).events, refl)
conclude-Succeeds saved before (waiting s) h = (drop before s.events, refl)
conclude-Succeeds saved before (failed e) h = absurd h

-- On the classic torus, in a state that keeps the invariant and whose worms have tables that
-- ValidateRules accepts, AdvanceRound returns its events and no error, unless the game is over or
-- a decision is awaited.
pub advance_round_succeeds :
    (s : State)
    → WellFormed s
    → ((i : ℕ) (w : Worm) → get_elem? s.worms i ≡ some w → validate_rules w.rules ≡ none)
    → s.game_over ≡ false
    → is_classic s.mode ≡ true
    → is_toroidal s.topology ≡ true
    → s.pending ≡ none
    → (es : List Event) × ((advance_round s).1 ≡ ok es)
unfolding advance_round
advance_round_succeeds s wf valid running classic torus ready =
    let start = pos_part s.active_slot in
    let h : Playable s = record {
      wf = wf;
      tables = λ i w g. (validate_rules-ValidTable w.rules).0 (valid i w g);
      running = running;
      classic = classic;
      torus = torus;
    } in
    option_elim Succeeds s.pending
      (λ e.
        if_elim Succeeds s.game_over (λ over. absurd (ground arith))
          (λ e.
            conclude-Succeeds s (length s.events) (run_slots (length s.worms - start) start s)
              (run_slots-GoesOn (length s.worms - start) start s h)))
      (λ p e. absurd (ground arith))
