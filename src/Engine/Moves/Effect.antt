-- ===== src/Engine/Moves/Effect.antt =====
-- What a performed move changes, and what it leaves alone.
use worms_ng.Prelude.{
  Bool-cases, List, String, ap, ap₂, arith, contains, false, get_elem?, get_elem?-modify_ne,
  get_elem?-modify_self, inl, inr, insert, insert_twice, not, pos, refl, some, subst, sym, true, ℕ,
  ℤ, ◌+ℤ◌, ◌+◌, ◌==◌, ◌∙◌, ◌≡◌, ◌≢◌,
}
use worms_ng.Engine.Board.{edge_at, neighbor}
use worms_ng.Engine.Masks.{find_worm, mask_at}
use worms_ng.Engine.Moves.{
  claim_trail, emit, move_event, paint, perform, recolor_capture, relocate, settle, step, travel,
}
use worms_ng.Engine.Moves.Preserve.{
  fallen, placed, recolor_capture-board, recolor_capture-trails, recolor_capture-worms,
}
use worms_ng.Engine.Moves.StepLaws.{step_performs}
use worms_ng.Engine.Types.{
  Board, Direction, Event, Point, Result, State, Trails, Worm, board, edge_key, ok, opposite,
  point_key, u64,
}

-- The worm in slot `i` may gain a point; the rest of it, and every other worm, stay.
record Paid (i : ℕ) (ws ws' : List Worm) : Type 0 where
  others : (j : ℕ) → i ≢ j → get_elem? ws' j ≡ get_elem? ws j
  own :
      {w : Worm}
      → get_elem? ws i ≡ some w
      → (x : ℤ) × (get_elem? ws' i ≡ some (record w { score = x }))

recolor_capture-Paid :
    (s : State) (i : ℕ) (name : String) (p : Point) (color : String)
    → Paid i s.worms (recolor_capture s i name p color).worms
recolor_capture-Paid s i name p color = elim (recolor_capture-worms s i name p color) [
  | inl same ↦
      subst (Paid i s.worms) (sym same)
        (record { others = λ j ne. refl; own = λ {w} g. (w.score, g) })
  | inr paid ↦ subst (Paid i s.worms) (sym paid) (record {
    others = λ j ne. get_elem?-modify_ne s.worms i j _ ne;
    own = λ {w} g. (w.score +ℤ pos 1, get_elem?-modify_self s.worms i _ g);
  })
]

recolor_capture-tick :
    (s : State) (i : ℕ) (name : String) (p : Point) (color : String)
    → (recolor_capture s i name p color).tick ≡ s.tick
unfolding recolor_capture
recolor_capture-tick s i name p color = ground arith

recolor_capture-game :
    (s : State) (i : ℕ) (name : String) (p : Point) (color : String)
    → (recolor_capture s i name p color).game_over ≡ s.game_over
unfolding recolor_capture
recolor_capture-game s i name p color = ground arith

module _ (s : State) (i : ℕ) (w : Worm) (name : String) (d : Direction) where
  abbrev to : Point
  to = neighbor (board s) w.position d

  abbrev claimed : State
  claimed = claim_trail s w name d

  abbrev left : State
  left = recolor_capture claimed i name w.position (paint w name)

  abbrev arrived : State
  arrived = relocate left i w name d

  left-board : board left ≡ board s
  left-board =
      recolor_capture-board claimed i name w.position (paint w name) ∙ unfold claim_trail in refl

  -- The trail of the move is the only new one.
  pub travel-trails :
      (travel s i w name d).trails ≡ insert (edge_at (board s) w.position d) name s.trails
  unfolding travel relocate
  travel-trails =
      recolor_capture-trails arrived i name to (paint w name)
      ∙ (ap₂ (λ (b : Board) (t : Trails). insert (edge_at b w.position d) name t) left-board
            (recolor_capture-trails claimed i name w.position (paint w name))
          ∙ unfold claim_trail in insert_twice (edge_at (board s) w.position d) name s.trails)

  pub travel-tick : (travel s i w name d).tick ≡ u64 (s.tick + 1)
  unfolding travel relocate
  travel-tick =
      recolor_capture-tick arrived i name to (paint w name)
      ∙ (recolor_capture-tick claimed i name w.position (paint w name) ∙ unfold claim_trail in refl)

  pub travel-game : (travel s i w name d).game_over ≡ s.game_over
  unfolding travel relocate
  travel-game =
      recolor_capture-game arrived i name to (paint w name)
      ∙ (recolor_capture-game claimed i name w.position (paint w name) ∙ unfold claim_trail in refl)

  pub travel-board : board (travel s i w name d) ≡ board s
  unfolding travel relocate
  travel-board = recolor_capture-board arrived i name to (paint w name) ∙ left-board

  -- Other worms are untouched by the move.
  pub travel-others :
      (j : ℕ) → i ≢ j → get_elem? (travel s i w name d).worms j ≡ get_elem? s.worms j
  unfolding travel relocate
  travel-others j ne =
      (recolor_capture-Paid arrived i name to (paint w name)).others j ne
      ∙ (get_elem?-modify_ne left.worms i j _ ne
          ∙ ((recolor_capture-Paid claimed i name w.position (paint w name)).others j ne
              ∙ unfold claim_trail in refl))

  -- The worm stands at the neighbour, and remembers where it came from.
  pub travel-own :
      get_elem? s.worms i ≡ some w
      → (x : ℤ) × (get_elem? (travel s i w name d).worms i
          ≡ some (record w { position = to; previous = d; crix = opposite d; score = x }))
  unfolding travel relocate
  travel-own here =
      let (x, first) =
        (recolor_capture-Paid claimed i name w.position (paint w name)).own {w = w}
          (unfold claim_trail in here) in
      let place = neighbor (board left) w.position d in
      let second = get_elem?-modify_self left.worms i (placed place d) first in
      subst
        (λ (b : Board).
          (x : ℤ) × (get_elem? (travel s i w name d).worms i
            ≡ some (record w {
              position = neighbor b w.position d;
              previous = d;
              crix = opposite d;
              score = x;
            })))
        left-board ((recolor_capture-Paid arrived i name to (paint w name)).own second)

-- What `Step` has done to a state `s` when it moved the worm `w` of slot `i` in the direction `d`.
pub record Moved (s s' : State) (i : ℕ) (w : Worm) (name : String) (d : Direction) : Type 0 where
  pub one_trail : s'.trails ≡ insert (edge_at (board s) w.position d) name s.trails
  pub one_tick : s'.tick ≡ u64 (s.tick + 1)
  pub same_board : board s' ≡ board s
  pub same_game : s'.game_over ≡ s.game_over
  pub others : (j : ℕ) → i ≢ j → get_elem? s'.worms j ≡ get_elem? s.worms j
  -- the worm lives on unless it has closed its destination
  pub own :
      (v : Worm) × (get_elem? s'.worms i ≡ some v)
      × (v.id ≡ w.id)
      × (v.rules ≡ w.rules)
      × (v.position ≡ neighbor (board s) w.position d)
      × (v.previous ≡ d)
      × (v.alive ≡ not (mask_at s' v.position == 63))

-- A move followed by the death of the worm at a closed destination.
settle-Moved :
    (s t : State) (i : ℕ) (w v : Worm) (name : String) (d : Direction)
    → t.trails ≡ insert (edge_at (board s) w.position d) name s.trails
    → t.tick ≡ u64 (s.tick + 1)
    → board t ≡ board s
    → t.game_over ≡ s.game_over
    → ((j : ℕ) → i ≢ j → get_elem? t.worms j ≡ get_elem? s.worms j)
    → get_elem? t.worms i ≡ some v
    → v.id ≡ w.id
    → v.rules ≡ w.rules
    → v.position ≡ neighbor (board s) w.position d
    → v.previous ≡ d
    → v.alive ≡ true
    → Moved s (settle t i name (neighbor (board s) w.position d)) i w name d
unfolding settle
settle-Moved s t i w v name d trails tick same game others here named table place came live =
    let to = neighbor (board s) w.position d in
    elim (Bool-cases (mask_at t to == 63)) [
      | inl full ↦ rw full (record {
        one_trail = trails;
        one_tick = tick;
        same_board = same;
        same_game = game;
        others = λ j ne. get_elem?-modify_ne t.worms i j fallen ne ∙ others j ne;
        own = (
          fallen v,
          get_elem?-modify_self t.worms i fallen here,
          named,
          table,
          place,
          came,
          rw (place, full) refl,
        );
      })
      | inr spoke ↦ rw spoke (record {
        one_trail = trails;
        one_tick = tick;
        same_board = same;
        same_game = game;
        others = others;
        own = (v, here, named, table, place, came, rw (place, spoke) live);
      })
    ]

-- A successful Step claims the edge of the move, which was free, and no other; counts one tick;
-- keeps the board, the end of the game and every other worm; and takes its own worm, with its name
-- and rules, to the neighbour, where it lives unless the six spokes there are now taken.
pub step_moves :
    (s : State) (name : String) (d : Direction) {e : Event}
    → (step s name d).1 ≡ ok e
    → (i : ℕ) × (w : Worm) × (find_worm s.worms name ≡ some w)
      × (get_elem? s.worms i ≡ some w)
      × (contains (edge_at (board s) w.position d) s.trails ≡ false)
      × Moved s (step s name d).0 i w name d
step_moves s name d done =
    let (i, w, here, named, found, p, result) = step_performs s name d done in
    let (x, own) = travel-own s i w name d here in
    let after =
      settle-Moved s (emit (travel s i w name d) (move_event s w name d)) i w
        (record w {
          position = neighbor (board s) w.position d;
          previous = d;
          crix = opposite d;
          score = x;
        })
        name d (unfold emit in travel-trails s i w name d) (unfold emit in travel-tick s i w name d)
        (unfold emit in travel-board s i w name d) (unfold emit in travel-game s i w name d)
        (unfold emit in travel-others s i w name d) (unfold emit in own) refl refl refl refl
        p.live in
    (
      i,
      w,
      found,
      here,
      p.unclaimed,
      subst (λ (t : State). Moved s t i w name d)
          (sym (ap (λ (r : State × Result Event). r.0) result)) (unfold perform in after),
    )
