-- ===== src/Engine/Turns/Progress.antt =====
-- On the classic torus, with valid tables, a round never fails.
use worms_ng.Prelude.{
  ==_iff, Bool-cases, String, ap, arith, eq_ℤ, false, get_elem?, get_elem?-modify_self, if_elim,
  inl, inr, is_empty, modify, negsuc, none, not, pos, refl, some, subst, sym, true, update, ℕ, ◌<◌,
  ◌==◌, ◌||◌, ◌∙◌, ◌≡◌,
}
use worms_ng.Engine.Auto.{choose_auto}
use worms_ng.Engine.Auto.Choice.{choose_auto-legal}
use worms_ng.Engine.Masks.{mask_at}
use worms_ng.Engine.Moves.{emit, legal_moves, step}
use worms_ng.Engine.Moves.Effect.{step_moves}
use worms_ng.Engine.Moves.StepLaws.{legal_iff_step, step-WellFormed, step_performs}
use worms_ng.Engine.Moves.Torus.{find_worm-of_slot, torus_step}
use worms_ng.Engine.Moves.WellFormed.{WellFormed, modified_cases}
use worms_ng.Engine.Rules.{check_action, forced_mask}
use worms_ng.Engine.Rules.Valid.{ValidTable, update_entries}
use worms_ng.Engine.Turns.{
  SlotEnd, act, count_use, end_of, failed, kill, learn_auto, next, set_rule, use_rule, waiting,
}
use worms_ng.Engine.Turns.Invariant.{kill-WellFormed, learn_auto-WellFormed, use_rule-WellFormed}
use worms_ng.Engine.Types.{
  Action, Board, Direction, Event, Point, Result, State, Worm, action_die, action_do_ai,
  action_get_new, board, err, is_classic, is_toroidal, no_move, ok, valid_direction,
}
use worms_ng.Prelude.Bits.{has_bit, has_bit-full, sweep, swept}

-- A game on the classic torus that can go on.
pub record Playable (s : State) : Type 0 where
  pub wf : WellFormed s
  pub tables : (i : ℕ) (w : Worm) → get_elem? s.worms i ≡ some w → ValidTable w.rules
  pub running : s.game_over ≡ false
  pub classic : is_classic s.mode ≡ true
  pub torus : is_toroidal s.topology ≡ true

-- A slot does not fail, and leaves such a game.
abbrev pub GoesOn : SlotEnd → Type 0
GoesOn (next s) = Playable s
GoesOn (waiting s) = Unit
GoesOn (failed e) = ⊥

-- A change of a worm that keeps its place and its table valid.
changed-Playable :
    (s : State) (i : ℕ) (f : Worm → Worm) (t : State)
    → Playable s
    → WellFormed t
    → t.worms ≡ modify s.worms i f
    → t.game_over ≡ s.game_over
    → board t ≡ board s
    → ((w : Worm) → get_elem? s.worms i ≡ some w → ValidTable (f w).rules)
    → Playable t
changed-Playable s i f t h wf worms game same valid = record {
  wf = wf;
  tables = λ j v g.
      elim (modified_cases s.worms i j f (sym (ap (λ ws. get_elem? ws j) worms) ∙ g)) [
        | inl (e, (w, found, image)) ↦
            subst (λ (x : Worm). ValidTable x.rules) (sym image)
              (valid w (ap (get_elem? s.worms) e ∙ found))
        | inr (ne, found) ↦ h.tables j v found
      ];
  running = game ∙ h.running;
  classic = ap (λ (b : Board). is_classic b.mode) same ∙ h.classic;
  torus = ap (λ (b : Board). is_toroidal b.topology) same ∙ h.torus;
}

pub kill-Playable :
    (s : State) (i : ℕ) (w : Worm) (kind : String) → Playable s → Playable (kill s i w kind)
unfolding kill emit
kill-Playable s i w kind h =
    changed-Playable s i (λ v. record v { alive = false; crix = no_move }) (kill s i w kind) h
      (kill-WellFormed s i w kind h.wf) refl refl refl (λ v g. h.tables i v g)

use_rule-Playable :
    (s : State) (i : ℕ) (w : Worm) (m : ℕ) (a : Action) → Playable s → Playable (use_rule s i w m a)
unfolding use_rule emit
use_rule-Playable s i w m a h =
    changed-Playable s i (λ v. count_use v m) (use_rule s i w m a) h
      (use_rule-WellFormed s i w m a h.wf) refl refl refl (λ v g. h.tables i v g)

step-Playable :
    (s : State) (name : String) (d : Direction) {e : Event}
    → Playable s
    → (step s name d).1 ≡ ok e
    → Playable (step s name d).0
step-Playable s name d h done =
    let (i, w, found, here, free, moved) = step_moves s name d done in
    record {
      wf = step-WellFormed s name d h.wf;
      tables = λ j v g.
          let (after, there, named, same, place, came, live) = moved.own in
          elim (Bool-cases (i == j)) [
            | inl eq ↦
                let slot : i ≡ j = (==_iff i j).0 eq in
                let one : some after ≡ some v =
                  sym there ∙ (ap (get_elem? (step s name d).0.worms) slot ∙ g) in
                let kept : after.rules ≡ v.rules =
                  ap (λ (x : Worm). x.rules) (let e : after ≡ v = ground arith in e) in
                subst ValidTable (sym same ∙ kept) (h.tables i w here)
            | inr ne ↦
                h.tables j v
                  (sym (moved.others j (λ e. let t = (==_iff i j).1 e in ground arith)) ∙ g)
          ];
      running = moved.same_game ∙ h.running;
      classic = ap (λ (b : Board). is_classic b.mode) moved.same_board ∙ h.classic;
      torus = ap (λ (b : Board). is_toroidal b.topology) moved.same_board ∙ h.torus;
    }

-- The last free spoke of a mask is the one that its forced entry names.
exit_table : sweep 6 (λ d. sweep 6 (λ x. has_bit (forced_mask d) x || x == d)) ≡ true
unfolding sweep has_bit
exit_table = refl

only_exit : (d x : Direction) → d < 6 → x < 6 → has_bit (forced_mask d) x ≡ false → x ≡ d
only_exit d x hd hx free =
    let row = swept 6 (λ d. sweep 6 (λ x. has_bit (forced_mask d) x || x == d)) d hd exit_table in
    let cell = swept 6 (λ x. has_bit (forced_mask d) x || x == d) x hx row in
    (==_iff x d).0 (ground arith)

-- Remembering a free direction keeps a table valid.
learned-ValidTable :
    (r : ℕ → Action) (m : ℕ) (d : Direction)
    → m < 64
    → d < 6
    → has_bit m d ≡ false
    → ValidTable r
    → ValidTable (update r m (pos d))
learned-ValidTable r m d hm hd free h = record {
  entries = update_entries r m (pos d) h.entries (unfold check_action in ground arith);
  forced = λ x lt. elim (Bool-cases (forced_mask x == m)) [
    | inl same ↦
        let eq : forced_mask x ≡ m = (==_iff (forced_mask x) m).0 same in
        rw same (ap pos (only_exit x d lt hd (ap (λ (k : ℕ). has_bit k d) eq ∙ free)))
    | inr other ↦ rw other (h.forced x lt)
  ];
  full = elim (Bool-cases (63 == m)) [
    | inl same ↦
        let eq : 63 ≡ m = (==_iff 63 m).0 same in
        let bit = has_bit-full d hd in
        absurd (let e : true ≡ false = sym bit ∙ (ap (λ (k : ℕ). has_bit k d) eq ∙ free) in cc)
    | inr other ↦ rw other h.full
  ];
}

pub learn_auto-Playable :
    (s : State) (i : ℕ) (w : Worm) (m : ℕ) (d : Direction)
    → m < 64
    → d < 6
    → has_bit m d ≡ false
    → Playable s
    → Playable (learn_auto s i w m (pos d))
unfolding learn_auto emit
learn_auto-Playable s i w m d hm hd free h =
    if_elim Playable w.frozen (λ e. h)
      (λ e.
        let f = λ (v : Worm). set_rule v m (pos d) in
        changed-Playable s i f _ h
          (learn_auto-WellFormed s i (record w { frozen = false }) m (pos d) h.wf) refl refl refl
          (λ v g. learned-ValidTable v.rules m d hm hd free (h.tables i v g)))

-- The worm of a slot: it lives, stands where `w` stood and has its name.
pub record Standing (s : State) (i : ℕ) (w : Worm) : Type 0 where
  pub now : Worm
  pub here : get_elem? s.worms i ≡ some now
  pub live : now.alive ≡ true
  pub named : now.id ≡ w.id
  pub place : now.position ≡ w.position

end-GoesOn : (r : State × Result Event) {e : Event} → r.1 ≡ ok e → Playable r.0 → GoesOn (end_of r)
end-GoesOn (s, ok e) h k = k
end-GoesOn (s, err e) h k = cc

-- A free direction is taken.
move-GoesOn :
    (s : State) (i : ℕ) (w : Worm) (m : ℕ) (d : Direction)
    → Playable s
    → Standing s i w
    → d < 6
    → has_bit (mask_at s w.position) d ≡ false
    → GoesOn (end_of (step (use_rule s i w m (pos d)) w.id d))
move-GoesOn s i w m d h stand lt free =
    let s' = use_rule s i w m (pos d) in
    let h' = use_rule-Playable s i w m (pos d) h in
    let here : get_elem? s'.worms i ≡ some (count_use stand.now m) =
      unfold use_rule emit in (get_elem?-modify_self s.worms i (λ v. count_use v m) stand.here) in
    let open_spoke : has_bit (mask_at s' stand.now.position) d ≡ false =
      unfold use_rule emit in
      (subst (λ (p : Point). has_bit (mask_at s p) d ≡ false) (sym stand.place) free) in
    let made : (e : Event) × ((step s' stand.now.id d).1 ≡ ok e) =
      torus_step s' i d {w = count_use stand.now m} h'.wf h'.running h'.classic h'.torus here
        stand.live lt open_spoke in
    let (e, done) =
      subst (λ (name : String). (e : Event) × ((step s' name d).1 ≡ ok e)) stand.named made in
    end-GoesOn (step s' w.id d) done (step-Playable s' w.id d h' done)

-- An action that the checks accept, and that is neither GETNEW nor DOAI, is carried out.
pub act-GoesOn :
    (s : State) (i : ℕ) (w : Worm) (whole m : ℕ) (a : Action)
    → Playable s
    → Standing s i w
    → whole ≡ mask_at s w.position
    → check_action whole a ≡ none
    → eq_ℤ a action_get_new ≡ false
    → eq_ℤ a action_do_ai ≡ false
    → GoesOn (act s i w whole m a)
unfolding act
act-GoesOn s i w whole m (negsuc a) h stand same fine new auto =
    if_elim GoesOn (eq_ℤ (negsuc a) action_die) (λ e. kill-Playable s i w "worm_died" h)
      (λ e. absurd (unfold check_action in ground arith))
act-GoesOn s i w whole m (pos a) h stand same fine new auto =
    if_elim GoesOn (not (valid_direction a) || has_bit whole a)
      (λ e. absurd (unfold check_action in ground arith))
      (λ e.
        let free : has_bit whole a ≡ false = ground arith in
        move-GoesOn s i w m a h stand (ground arith)
          (sym (ap (λ (k : ℕ). has_bit k a) same) ∙ free))

-- The answer of the automatic controller is a free direction.
pub auto_free :
    (s : State) (i : ℕ) (w : Worm)
    → Playable s
    → get_elem? s.worms i ≡ some w
    → is_empty (legal_moves s w.id) ≡ false
    → (choose_auto s i w < 6) × (has_bit (mask_at s w.position) (choose_auto s i w) ≡ false)
auto_free s i w h here moves =
    let d = choose_auto s i w in
    let (e, done) = (legal_iff_step s w.id d h.wf h.running).0 (choose_auto-legal s i w moves) in
    let (j, v, there, named, found, p, result) = step_performs s w.id d done in
    let mine = find_worm-of_slot (board s) s.worms i h.wf.worms_ok here in
    let one : some v ≡ some w = sym found ∙ mine in
    let same : v ≡ w = ground arith in
    (p.valid, subst (λ (x : Worm). has_bit (mask_at s x.position) d ≡ false) same p.free)

pub learned-Standing :
    (s : State) (i : ℕ) (w : Worm) (m : ℕ) (a : Action)
    → get_elem? s.worms i ≡ some w
    → w.alive ≡ true
    → Standing (learn_auto s i w m a) i w
unfolding learn_auto emit
learned-Standing s i w m a here live =
    if_elim (λ (t : State). Standing t i w) w.frozen
      (λ e. record { now = w; here = here; live = live; named = refl; place = refl })
      (λ e. record {
        now = set_rule w m a;
        here = get_elem?-modify_self s.worms i (λ v. set_rule v m a) here;
        live = live;
        named = refl;
        place = refl;
      })
