-- ===== src/Engine/Turns.antt =====
-- `AdvanceRound`, `Submit` and `advanceAfterSubmit` of controller.go: the rounds. An error leaves
-- the state that was there before, which the deferred function restores.
pub mod Invariant
pub mod Progress
pub mod Success
use worms_ng.Prelude.{
  List, Option, String, any, bit_and, count_if, drop, eq_ℤ, false, get_elem?, if◌then◌else◌,
  is_empty, length, ltb, modify, negsuc, none, not, pos, pos_part, some, suc, true, update, zero, ℕ,
  ◌+◌, ◌-◌, ◌==◌, ◌||◌,
}
use worms_ng.Engine.Auto.{choose_auto}
use worms_ng.Engine.Board.{start}
use worms_ng.Engine.Masks.{mask_at}
use worms_ng.Engine.Moves.{emit, legal_moves, step}
use worms_ng.Engine.Types.{
  Action, Decision, Direction, EngineError, Event, Result, State, Worm, action_die, action_do_ai,
  action_get_new, err, frozen_unknown, game_over, illegal_rule, invalid_direction, no_event,
  no_move, occupied_spoke, ok, panic, pending_decision, to_action, transition, u32, u64,
  valid_direction,
}
use worms_ng.Prelude.Bits.{has_bit}

-- `State.kill`
unfoldable pub kill : State → ℕ → Worm → String → State
unfolding emit
kill s i w kind =
    let s₁ = record s {
      worms = modify s.worms i (λ v. record v { alive = false; crix = no_move });
    } in
    emit s₁ (record no_event { kind = kind; worm_id = w.id; to = w.position })

-- How a slot ends: the next slot is up, a decision is awaited, or the round fails.
pub data SlotEnd : Type 0 where
  next waiting : State → SlotEnd
  failed : EngineError → SlotEnd

-- A slot whose pattern is unknown stalls the round.
unfoldable pub await_decision : State → ℕ → Worm → ℕ → State
unfolding emit
await_decision s i w m =
    let request = u64 (length s.events + 1) in
    emit
      (record s {
        pending = some (record {
          worm_id = w.id;
          mask = m;
          slot = pos i;
          request = request;
          reason = "unknown_pattern";
          frozen = w.frozen;
        });
      })
      (record no_event {
        kind = "decision_pending";
        worm_id = w.id;
        mask = m;
        slot = pos i;
        request = request;
        brain_id = w.brain_id;
        brain_version = w.brain_version;
        provenance = "unknown_pattern";
      })

abbrev pub learned_event : Worm → ℕ → ℕ → Action → String → Event
learned_event w i m a source = record no_event {
  kind = "rule_learned";
  worm_id = w.id;
  slot = pos i;
  rule_mask = m;
  rule_action = a;
  brain_id = w.brain_id;
  brain_version = w.brain_version;
  provenance = source;
}

abbrev pub used_event : Worm → ℕ → ℕ → Action → ℕ → Event
used_event w i m a uses = record no_event {
  kind = "rule_used";
  worm_id = w.id;
  slot = pos i;
  rule_mask = m;
  rule_action = a;
  use_count = uses;
  brain_id = w.brain_id;
  brain_version = w.brain_version;
}

abbrev pub set_rule : Worm → ℕ → Action → Worm
set_rule w m a = record w { rules = update w.rules m a }

abbrev pub count_use : Worm → ℕ → Worm
count_use w m = record w { rule_uses = update w.rule_uses m (u32 (w.rule_uses m + 1)) }

-- The answer of the automatic controller, remembered unless the brain is frozen.
unfoldable pub learn_auto : State → ℕ → Worm → ℕ → Action → State
unfolding emit
learn_auto s i w m a =
    if w.frozen
    then s
    else emit (record s { worms = modify s.worms i (λ v. set_rule v m a) })
        (learned_event w i m a "auto")

-- The count and the event of a rule that is used.
unfoldable pub use_rule : State → ℕ → Worm → ℕ → Action → State
unfolding emit
use_rule s i w m a =
    emit (record s { worms = modify s.worms i (λ v. count_use v m) })
      (used_event w i m a (u32 (w.rule_uses m + 1)))

abbrev pub end_of : State × Result Event → SlotEnd
end_of (s, ok e) = next s
end_of (s, err e) = failed e

-- The action `a` is neither GETNEW nor DOAI any more, unless the table is broken; `whole` is the
-- mask before it is cut to six bits.
unfoldable pub act : State → ℕ → Worm → ℕ → ℕ → Action → SlotEnd
act s i w whole m (negsuc a) =
    if eq_ℤ (negsuc a) action_die
    then next (kill s i w "worm_died")
    else failed (illegal_rule w.id m (negsuc a))
act s i w whole m (pos a) =
    if not (valid_direction a) || has_bit whole a
    then failed (illegal_rule w.id m (pos a))
    else end_of (step (use_rule s i w m (pos a)) w.id a)

-- The body of the loop over the slots, for the worm `w` in slot `i`.
unfoldable pub run_slot : State → ℕ → Worm → SlotEnd
run_slot s₀ i w =
    let s = record s₀ { active_slot = pos i } in
    let whole = mask_at s w.position in
    let m = bit_and whole 63 in
    let a = w.rules m in
    let auto = to_action (choose_auto s i w) in
    if not w.alive
    then next s
    else if is_empty (legal_moves s w.id)
    then next (kill s i w "worm_blocked")
    else if eq_ℤ a action_get_new
    then waiting (await_decision s i w m)
    else if eq_ℤ a action_do_ai
    then act (learn_auto s i w m auto) i w whole m auto
    else act s i w whole m a

-- The slots from `i` on, `left` of them.
unfoldable pub run_slots : ℕ → ℕ → State → SlotEnd
run_slots zero i s = next s
run_slots (suc left) i s = elim (get_elem? s.worms i) [
  | none ↦ next s
  | some w ↦ elim (run_slot s i w) [
    | next s' ↦ run_slots left (suc i) s'
    | waiting s' ↦ waiting s'
    | failed e ↦ failed e
  ]
]

-- `State.AliveCount`
unfoldable pub alive_count : List Worm → ℕ
alive_count ws = count_if (λ w. w.alive) ws

-- The lines behind the loop.
unfoldable pub finish_round : State → State
unfolding emit alive_count
finish_round s =
    let s₁ =
      emit (record s { active_slot = negsuc 0; round = u64 (s.round + 1) })
        (record no_event { kind = "round_completed"; slot = negsuc 0 }) in
    if alive_count s₁.worms == 0
    then emit (record s₁ { game_over = true }) (record no_event { kind = "game_over" })
    else s₁

-- What the caller gets: the state, and the events since `before`; an error restores `saved`.
unfoldable pub conclude : State → ℕ → SlotEnd → State × Result (List Event)
conclude saved before (next s) = let s' = finish_round s in (s', ok (drop before s'.events))
conclude saved before (waiting s) = (s, ok (drop before s.events))
conclude saved before (failed e) = (saved, err e)

-- `State.AdvanceRound`
unfoldable pub advance_round : State → State × Result (List Event)
advance_round s =
    let start = pos_part s.active_slot in
    elim s.pending [
      | some p ↦ (s, err (transition pending_decision "" 0))
      | none ↦
          if s.game_over
          then (s, err (transition game_over "" 0))
          else conclude s (length s.events) (run_slots (length s.worms - start) start s)
    ]

-- `State.advanceAfterSubmit`, which the caller restores to `saved` on an error.
unfoldable pub advance_after_submit : State → ℕ → State → State × Result (List Event)
advance_after_submit saved before s =
    let start = pos_part s.active_slot in
    conclude saved before (run_slots (length s.worms - start) start s)

-- The state of `Submit` before its call of `Step`.
unfoldable pub teach : State → ℕ → Worm → ℕ → Direction → State
unfolding emit
teach s i w m d =
    let s₁ =
      emit (record s { worms = modify s.worms i (λ v. set_rule v m (to_action d)) })
        (learned_event w i m (to_action d) "new") in
    let s₂ = record s₁ { pending = none; active_slot = pos (i + 1) } in
    use_rule s₂ i w m (to_action d)

-- The end of `Submit`, by what `Step` has done.
unfoldable pub resume : State → ℕ → State × Result Event → State × Result (List Event)
resume saved before (s, ok e) = advance_after_submit saved before s
resume saved before (s, err e) = (saved, err e)

-- The refusals of `Submit`, in order, for the worm of the awaited slot.
unfoldable pub submit_refusal : State → Decision → Worm → Direction → Option EngineError
submit_refusal s p w d =
    if p.frozen || w.frozen
    then some (transition frozen_unknown w.id d)
    else if not (valid_direction d)
    then some (transition invalid_direction w.id d)
    else if not (any (λ x. x == d) (legal_moves s w.id))
    then some (transition occupied_spoke w.id d)
    else if ltb 63 p.mask
    then some panic
    else none

abbrev pub slot_of : Decision → Option ℕ
slot_of p = elim p.slot [ pos i ↦ some i | negsuc n ↦ none ]

-- `State.Submit`. A decision whose slot no worm has, or whose mask has more than six bits, is an
-- index out of range.
unfoldable pub submit : State → Direction → State × Result (List Event)
submit s d = elim s.pending [
  | none ↦ (s, err (transition pending_decision "" 0))
  | some p ↦ elim (slot_of p) [
    | none ↦ (s, err panic)
    | some i ↦ elim (get_elem? s.worms i) [
      | none ↦ (s, err panic)
      | some w ↦ elim (submit_refusal s p w d) [
        | some fault ↦ (s, err fault)
        | none ↦ resume s (length s.events) (step (teach s i w p.mask d) w.id d)
      ]
    ]
  ]
]
