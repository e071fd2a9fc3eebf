-- ===== src/Planner/Scores.antt =====
-- The scores of planner.go: `score`, `future` and `borderScore`. A copy of a state is the state.
use worms_ng.Prelude.{
  Bool, List, Option, String, [], count_if, eq_ℤ, false, get_elem?, if◌then◌else◌, leb_ℤ, length,
  ltb_ℤ, negsuc, none, not, pos, pos_part, some, str_eq, suc, zero, ℕ, ℤ, ◌&&◌, ◌*ℤ◌, ◌+ℤ◌, ◌-ℤ◌,
  ◌-◌, ◌∷◌,
}
use worms_ng.Engine.Board.{neighbor, start}
use worms_ng.Engine.Moves.{legal_moves, step}
use worms_ng.Engine.Types.{
  Direction, Event, Point, Result, State, Worm, board, directions, err, is_toroidal, ok,
}
use worms_ng.Planner.{Alternative, Config}

-- `-1 << 30`
abbrev pub lowest : ℤ
lowest = negsuc 1073741823

abbrev pub is_traversable : State → Point → Bool
is_traversable s p =
    let first = start s.mode in
    leb_ℤ first p.q
    && ltb_ℤ p.q (first +ℤ s.width)
    && leb_ℤ first p.r
    && ltb_ℤ p.r (first +ℤ s.height)

-- `borderScore`
unfoldable pub border_score : State → Point → ℤ
border_score s p =
    if is_toroidal s.topology
    then pos 6
    else pos (count_if (λ d. is_traversable s (neighbor (board s) p d)) directions)

-- `p.config.CaptureWeight*capture + …`, of the state behind the move of the worm, which is now `v`
-- and whose name is `name`.
abbrev pub utility : Config → String → ℤ → State → Worm → ℤ
utility c name before s v =
    c.capture_weight *ℤ (v.score -ℤ before)
    +ℤ c.border_weight *ℤ border_score s v.position
    +ℤ c.survival_weight *ℤ pos (length (legal_moves s name))

-- The value of a move in `future`; `none` is a failed step. `rest` is the call of `future`.
unfoldable pub move_value : Config → (State → ℤ) → ℕ → ℤ → State × Result Event → Option ℤ
move_value c rest i before (s, err e) = none
move_value c rest i before (s, ok e) = elim (get_elem? s.worms i) [
  | none ↦ none
  | some v ↦ some (utility c v.id before s v +ℤ rest s)
]

-- The loop over the moves in `future`.
unfoldable pub best_value : (Direction → Option ℤ) → List Direction → ℤ → ℤ
best_value value [] best = best
best_value value (d ∷ ds) best =
    best_value value ds (elim (value d) [ none ↦ best | some v ↦ if ltb_ℤ best v then v else best ])

-- `future`
unfoldable pub future : Config → ℕ → ℕ → State → ℤ
future c zero i s = pos 0
future c (suc depth) i s = elim (get_elem? s.worms i) [
  | none ↦ pos 0
  | some w ↦
      let best =
        best_value (λ d. move_value c (future c depth i) i w.score (step s w.id d))
          (legal_moves s w.id) lowest in
      if not w.alive then pos 0 else if eq_ℤ best lowest then pos 0 else best
]

abbrev pub illegal_candidate : Direction → Alternative
illegal_candidate d = record {
  action = d;
  capture = pos 0;
  border = pos 0;
  survival = pos 0;
  lookahead = pos 0;
  total = lowest;
  chosen = false;
  reason = "illegal candidate";
}

-- `look` in `score`
unfoldable pub look_ahead : Config → ℕ → State → Worm → ℤ
look_ahead c i s v =
    if str_eq c.mode "lookahead" && ltb_ℤ (pos 1) c.depth && v.alive
    then future c (pos_part c.depth - 1) i s
    else pos 0

-- The alternative behind a trial step.
unfoldable pub tried : Config → ℕ → String → ℤ → Direction → State × Result Event → Alternative
tried c i name before d (s, err e) = illegal_candidate d
tried c i name before d (s, ok e) = elim (get_elem? s.worms i) [
  | none ↦ illegal_candidate d
  | some v ↦
      let look = look_ahead c i s v in
      record {
        action = d;
        capture = v.score -ℤ before;
        border = border_score s v.position;
        survival = pos (length (legal_moves s name));
        lookahead = look;
        total = utility c name before s v +ℤ look;
        chosen = false;
        reason = "";
      }
]

-- `score`, of the worm `w` in slot `i`.
unfoldable pub score : Config → State → ℕ → Worm → Direction → Alternative
score c s i w d = tried c i w.id w.score d (step s w.id d)
