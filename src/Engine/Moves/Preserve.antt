-- ===== src/Engine/Moves/Preserve.antt =====
-- `Step` keeps the invariant.
use worms_ng.Prelude.{
  Bool-cases, List, String, ap, arith, bit_or, false, get_elem?, get_elem?-modify_self, inl, inr,
  modify, pos, refl, some, str_eq, subst, sym, ℕ, ◌+ℤ◌, ◌<◌, ◌==◌, ◌∙◌, ◌≡◌, ◌⊎◌,
}
use worms_ng.Engine.Board.{edge_at, neighbor}
use worms_ng.Engine.Board.Torus.{Inside}
use worms_ng.Engine.Masks.{mask_at, stored_territory, trail_mask}
use worms_ng.Engine.Moves.{
  claim_trail, emit, move_event, paint, perform, recolor_capture, relocate, settle, travel,
}
use worms_ng.Engine.Moves.Recolor.Capture.{recolor_capture-WellFormed}
use worms_ng.Engine.Moves.WellFormed.{IsSpoke, WellFormed, Wf, claim-Wf, modify-Wf}
use worms_ng.Engine.Types.{Board, Direction, Point, State, Worm, board, no_move, opposite}

-- What `recolorCapture` leaves alone.
pub recolor_capture-board :
    (s : State) (i : ℕ) (name : String) (p : Point) (color : String)
    → board (recolor_capture s i name p color) ≡ board s
unfolding recolor_capture
recolor_capture-board s i name p color = ground arith

pub recolor_capture-trails :
    (s : State) (i : ℕ) (name : String) (p : Point) (color : String)
    → (recolor_capture s i name p color).trails ≡ s.trails
unfolding recolor_capture
recolor_capture-trails s i name p color = ground arith

-- The worms change in their scores at most.
pub recolor_capture-worms :
    (s : State) (i : ℕ) (name : String) (p : Point) (color : String)
    → ((recolor_capture s i name p color).worms ≡ s.worms)
      ⊎ ((recolor_capture s i name p color).worms
          ≡ modify s.worms i (λ w. record w { score = w.score +ℤ pos 1 }))
unfolding recolor_capture
recolor_capture-worms s i name p color =
    elim (Bool-cases
      (bit_or (stored_territory s.territories p).mask (trail_mask (board s) s.trails p) == 63)) [
        | inl shut ↦ elim (Bool-cases (str_eq (stored_territory s.territories p).owner "")) [
          | inl free ↦ rw shut (rw free (inr refl))
          | inr taken ↦ rw shut (rw taken (inl refl))
        ]
        | inr spoke ↦ elim (Bool-cases (str_eq (stored_territory s.territories p).owner "")) [
          | inl free ↦ rw spoke (rw free (inl refl))
          | inr taken ↦ rw spoke (rw taken (inl refl))
        ]
      ]

pub recolor_capture-worm :
    (s : State) (i : ℕ) (name : String) (p : Point) (color : String) {w : Worm}
    → get_elem? s.worms i ≡ some w
    → (v : Worm) × (get_elem? (recolor_capture s i name p color).worms i ≡ some v) × (v.id ≡ w.id)
recolor_capture-worm s i name p color {w} here =
    let at = λ (ws : List Worm). get_elem? ws i in
    elim (recolor_capture-worms s i name p color) [
      | inl same ↦ (w, ap at same ∙ here, refl)
      | inr paid ↦ (
        record w { score = w.score +ℤ pos 1 },
        ap at paid
            ∙ get_elem?-modify_self s.worms i (λ w. record w { score = w.score +ℤ pos 1 }) here,
        refl,
      )
    ]

abbrev pub placed : Point → Direction → Worm → Worm
placed to d v = record v { position = to; previous = d; crix = opposite d }

-- The worm takes its new place.
relocate-WellFormed :
    (s : State) (i : ℕ) (w : Worm) (name : String) (d : Direction)
    → Inside (board s) (neighbor (board s) w.position d)
    → IsSpoke (board s) (edge_at (board s) w.position d)
    → WellFormed s
    → WellFormed (relocate s i w name d)
unfolding relocate
relocate-WellFormed s i w name d inside spoke h =
    let f = placed (neighbor (board s) w.position d) d in
    claim-Wf (edge_at (board s) w.position d) name spoke (
      modify-Wf (board s) s.trails s.territories s.worms i f (λ u. refl) (λ u. refl)
        (λ u g live. inside) h)

abbrev pub fallen : Worm → Worm
fallen v = record v { alive = false; crix = no_move }

-- A worm that dies keeps the invariant.
pub fallen-Wf :
    (s : State) (i : ℕ)
    → WellFormed s
    → Wf (board s) s.trails s.territories (modify s.worms i fallen)
fallen-Wf s i h =
    modify-Wf (board s) s.trails s.territories s.worms i fallen (λ u. refl) (λ u. refl)
      (λ u g live. cc) h

-- The worm dies where it stands.
pub settle-WellFormed :
    (s : State) (i : ℕ) (name : String) (to : Point)
    → WellFormed s
    → WellFormed (settle s i name to)
unfolding settle
settle-WellFormed s i name to h = elim (Bool-cases (mask_at s to == 63)) [
  | inl full ↦ rw full (fallen-Wf s i h)
  | inr spoke ↦ rw spoke h
]

module _ (s : State) (i : ℕ) (w : Worm) (name : String) (d : Direction) (h : WellFormed s)
    (here : get_elem? s.worms i ≡ some w) (named : w.id ≡ name) (valid : d < 6)
    (from : Inside (board s) w.position)
    (to : Inside (board s) (neighbor (board s) w.position d)) where
  spoke : IsSpoke (board s) (edge_at (board s) w.position d)
  spoke = (w.position, d, valid, from, to, refl)

  pub claim_trail-WellFormed : WellFormed (claim_trail s w name d)
  unfolding claim_trail
  claim_trail-WellFormed = claim-Wf (edge_at (board s) w.position d) name spoke h

  unfoldable pub first : State
  first = recolor_capture (claim_trail s w name d) i name w.position (paint w name)

  pub first-WellFormed : WellFormed first
  unfolding first claim_trail
  first-WellFormed =
      recolor_capture-WellFormed (claim_trail s w name d) i name w.position (paint w name)
        claim_trail-WellFormed here named

  pub first-board : board first ≡ board s
  unfolding first claim_trail
  first-board = recolor_capture-board (claim_trail s w name d) i name w.position (paint w name)

  first-worm : (v : Worm) × (get_elem? first.worms i ≡ some v) × (v.id ≡ w.id)
  unfolding first claim_trail
  first-worm = recolor_capture-worm (claim_trail s w name d) i name w.position (paint w name) here

  unfoldable pub moved : State
  moved = relocate first i w name d

  pub moved-WellFormed : WellFormed moved
  unfolding moved
  moved-WellFormed =
      let there = λ (b : Board). Inside b (neighbor b w.position d) in
      let spokes = λ (b : Board). IsSpoke b (edge_at b w.position d) in
      relocate-WellFormed first i w name d (subst there (sym first-board) to)
        (subst spokes (sym first-board) spoke) first-WellFormed

  -- The whole move up to its end keeps the invariant.
  pub travel-WellFormed : WellFormed (travel s i w name d)
  unfolding travel moved first relocate
  travel-WellFormed =
      let (v, there, same) = first-worm in
      let f = placed (neighbor (board first) w.position d) d in
      recolor_capture-WellFormed moved i name (neighbor (board s) w.position d) (paint w name)
        moved-WellFormed (get_elem?-modify_self first.worms i f there) (same ∙ named)

  pub perform-WellFormed : WellFormed (perform s i w name d).0
  unfolding perform
  perform-WellFormed =
      settle-WellFormed (emit (travel s i w name d) (move_event s w name d)) i name
        (neighbor (board s) w.position d) (unfold emit in travel-WellFormed)
