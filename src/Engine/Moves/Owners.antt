-- ===== src/Engine/Moves/Owners.antt =====
-- A point has an owner exactly when its six spokes are taken.
use mathlib.Core.Path.{fun_ext}
use worms_ng.Prelude.{
  Bool-cases, String, ap, ap₂, arith, bit_or, contains, false, get_elem?, inl, inr, insert,
  lookup-insert, refl, some, str_eq, str_eq_iff, subst, sym, true, ℕ, ◌<◌, ◌==◌, ◌&&◌,
  if◌then◌else◌, ◌↔◌, ◌∙◌, ◌≡◌, ◌≢◌,
}
use worms_ng.Engine.Board.{edge_at, neighbor}
use worms_ng.Engine.Board.Edges.{new_edge_ends}
use worms_ng.Engine.Board.Torus.{Inside, Inside-of_in_bounds}
use worms_ng.Engine.Masks.{has_trail, mask_at, stored_territory, trail_mask}
use worms_ng.Engine.Masks.Laws.{contains-insert, has_bit-trail_mask, trail_mask_lt}
use worms_ng.Engine.Moves.{
  claim_trail, emit, move_event, paint, perform, recolor_capture, relocate, settle, step, travel,
}
use worms_ng.Engine.Moves.Effect.{travel-board, travel-trails}
use worms_ng.Engine.Moves.Preserve.{
  claim_trail-WellFormed, first, moved, moved-WellFormed, recolor_capture-board,
  recolor_capture-trails,
}
use worms_ng.Engine.Moves.Recolor.{closed, recolored_mask}
use worms_ng.Engine.Moves.StepLaws.{step-WellFormed, step_error_unchanged, step_performs}
use worms_ng.Engine.Moves.WellFormed.{WellFormed}
use worms_ng.Engine.Types.{
  Board, Direction, Edge, Event, Point, Result, State, Territories, Territory, Trails, Worm, board,
  edge_eq, edge_eq_iff, edge_key, new_edge, point_eq, point_eq_iff, point_key, result_cases,
}
use worms_ng.Prelude.Bits.{full_of_bits, gather, has_bit, has_bit-full}

-- The six spokes of the point carry trails.
unfoldable pub IsClosed : Board → Trails → Point → Type 0
IsClosed b trails p = (d : Direction) → d < 6 → contains (edge_at b p d) trails ≡ true

abbrev pub owner_at : Territories → Point → String
owner_at territories p = (stored_territory territories p).owner

-- Each point has an owner exactly when its spokes are taken.
unfoldable pub OwnersExact : State → Type 0
OwnersExact s = (p : Point) → (owner_at s.territories p ≢ "") ↔ IsClosed (board s) s.trails p

-- The half that the invariant does not say.
abbrev Captured : State → Type 0
Captured s = (p : Point) → trail_mask (board s) s.trails p ≡ 63 → owner_at s.territories p ≢ ""

trail_mask_iff :
    (b : Board) (trails : Trails) (p : Point) → (trail_mask b trails p ≡ 63) ↔ IsClosed b trails p
unfolding IsClosed has_trail
trail_mask_iff b trails p = (
  λ full d lt.
      sym (has_bit-trail_mask b trails p d lt) ∙ (ap (λ m. has_bit m d) full ∙ has_bit-full d lt),
  λ taken.
      full_of_bits (trail_mask b trails p) (trail_mask_lt b trails p)
        (λ d lt. has_bit-trail_mask b trails p d lt ∙ taken d lt),
)

OwnersExact-Captured : (s : State) → WellFormed s → OwnersExact s ↔ Captured s
unfolding OwnersExact
OwnersExact-Captured s h = (
  λ exact p full. (exact p).1 ((trail_mask_iff (board s) s.trails p).0 full),
  λ captured p. (
    λ owned. (trail_mask_iff (board s) s.trails p).0 (closed s p h owned),
    λ taken. captured p ((trail_mask_iff (board s) s.trails p).1 taken),
  ),
)

-- A new trail changes the mask of its two ends alone.
new_edge-other : (a b p q : Point) → p ≢ a → p ≢ b → edge_eq (new_edge a b) (new_edge p q) ≡ false
new_edge-other a b p q ne ne' = elim (Bool-cases (edge_eq (new_edge a b) (new_edge p q))) [
  | inr other ↦ other
  | inl twin ↦
      let e = (edge_eq_iff (new_edge a b) (new_edge p q)).0 twin in
      let same_a = ap (λ (x : Edge). x.a) e in
      let same_b = ap (λ (x : Edge). x.b) e in
      elim (new_edge_ends a b) [
        | inl (l, r) ↦ elim (new_edge_ends p q) [
          | inl (l', r') ↦ absurd (ne (sym l' ∙ (sym same_a ∙ l)))
          | inr (l', r') ↦ absurd (ne' (sym r' ∙ (sym same_b ∙ r)))
        ]
        | inr (l, r) ↦ elim (new_edge_ends p q) [
          | inl (l', r') ↦ absurd (ne' (sym l' ∙ (sym same_a ∙ l)))
          | inr (l', r') ↦ absurd (ne (sym r' ∙ (sym same_b ∙ r)))
        ]
      ]
]

trail_mask-insert :
    (b : Board) (trails : Trails) (a a' p : Point) (name : String)
    → p ≢ a
    → p ≢ a'
    → trail_mask b (insert (new_edge a a') name trails) p ≡ trail_mask b trails p
unfolding trail_mask has_trail
trail_mask-insert b trails a a' p name ne ne' = ap gather (
    fun_ext (λ d.
      let q = neighbor b p d in
      contains-insert trails (new_edge a a') (new_edge p q) name
      ∙ rw (new_edge-other a a' p q ne ne') refl))

module _ (s : State) (i : ℕ) (name : String) (p : Point) (color : String) where
  abbrev before : String
  before = owner_at s.territories p

  abbrev found_mask : ℕ
  found_mask = bit_or (stored_territory s.territories p).mask (trail_mask (board s) s.trails p)

  -- What is stored is owned by the worm, if the point is closed and had no owner.
  recolor_capture-stored :
      (t : Territory) × ((recolor_capture s i name p color).territories ≡ insert p t s.territories)
      × (t.owner ≡ (if found_mask == 63 && str_eq before "" then name else before))
  unfolding recolor_capture
  recolor_capture-stored = elim (Bool-cases (found_mask == 63)) [
    | inl shut ↦ elim (Bool-cases (str_eq before "")) [
      | inl free ↦ rw shut (rw free (_, refl, refl))
      | inr taken ↦ rw shut (rw taken (_, refl, refl))
    ]
    | inr spoke ↦ elim (Bool-cases (str_eq before "")) [
      | inl free ↦ rw spoke (rw free (_, refl, refl))
      | inr taken ↦ rw spoke (rw taken (_, refl, refl))
    ]
  ]

  -- The owner of any point afterwards.
  recolor_capture-owner_at :
      (q : Point)
      → owner_at (recolor_capture s i name p color).territories q ≡ (
          if point_eq p q
          then if found_mask == 63 && str_eq before "" then name else before
          else owner_at s.territories q)
  recolor_capture-owner_at q =
      let (t, stored, own) = recolor_capture-stored in
      ap (λ ts. owner_at ts q) stored ∙ ground (arith, lookup-insert q p t s.territories, own)

  -- No owner is lost.
  recolor_capture-owned :
      (q : Point)
      → name ≢ ""
      → owner_at s.territories q ≢ ""
      → owner_at (recolor_capture s i name p color).territories q ≢ ""
  recolor_capture-owned q ne owned e = elim (Bool-cases (point_eq p q)) [
    | inl same ↦
        let at : p ≡ q = (point_eq_iff p q).0 same in
        let was : before ≢ "" = subst (λ x. owner_at s.territories x ≢ "") (sym at) owned in
        ground (arith, recolor_capture-owner_at q, str_eq_iff before "")
    | inr other ↦ ground (arith, recolor_capture-owner_at q)
  ]

  -- The point that is recoloured has an owner, if it is closed.
  recolor_capture-owner :
      WellFormed s
      → name ≢ ""
      → trail_mask (board s) s.trails p ≡ 63
      → owner_at (recolor_capture s i name p color).territories p ≢ ""
  recolor_capture-owner h ne full e =
      let found : found_mask ≡ 63 = recolored_mask s p h ∙ full in
      let self = (point_eq_iff p p).1 refl in
      ground (arith, recolor_capture-owner_at p, str_eq_iff before "")

module _ (s : State) (i : ℕ) (w : Worm) (name : String) (d : Direction) (h : WellFormed s)
    (here : get_elem? s.worms i ≡ some w) (named : w.id ≡ name) (valid : d < 6)
    (from : Inside (board s) w.position) (to : Inside (board s) (neighbor (board s) w.position d))
    (some_name : name ≢ "") where
  abbrev goal : Point
  goal = neighbor (board s) w.position d

  abbrev claims : State
  claims = claim_trail s w name d

  abbrev left : State
  left = first s i w name d h here named valid from to

  abbrev entered : State
  entered = moved s i w name d h here named valid from to

  -- An owner is kept through both writes of the move.
  left-owned :
      (p : Point)
      → owner_at left.territories p ≢ ""
      → owner_at (travel s i w name d).territories p ≢ ""
  unfolding travel moved first relocate
  left-owned p = recolor_capture-owned entered i name goal (paint w name) p some_name

  travel-owned :
      (p : Point)
      → owner_at s.territories p ≢ ""
      → owner_at (travel s i w name d).territories p ≢ ""
  unfolding first claim_trail
  travel-owned p owned =
      left-owned p (recolor_capture-owned claims i name w.position (paint w name) p some_name owned)

  -- The point that is left.
  source-owner :
      trail_mask (board s) (insert (edge_at (board s) w.position d) name s.trails) w.position ≡ 63
      → owner_at (travel s i w name d).territories w.position ≢ ""
  unfolding first claim_trail
  source-owner full = left-owned w.position (
      recolor_capture-owner claims i name w.position (paint w name)
        (claim_trail-WellFormed s i w name d h here named valid from to) some_name full)

  -- The point that is entered.
  goal-owner :
      trail_mask (board (travel s i w name d)) (travel s i w name d).trails goal ≡ 63
      → owner_at (travel s i w name d).territories goal ≢ ""
  unfolding travel moved first relocate
  goal-owner full =
      recolor_capture-owner entered i name goal (paint w name)
        (moved-WellFormed s i w name d h here named valid from to) some_name
        (ap₂ (λ (b : Board) (t : Trails). trail_mask b t goal)
            (sym (recolor_capture-board entered i name goal (paint w name)))
            (sym (recolor_capture-trails entered i name goal (paint w name)))
          ∙ full)

  travel-Captured : Captured s → Captured (travel s i w name d)
  travel-Captured captured p full =
      let full' : trail_mask (board s) (insert (edge_at (board s) w.position d) name s.trails) p
          ≡ 63 =
        ap₂ (λ (b : Board) (t : Trails). trail_mask b t p) (sym (travel-board s i w name d))
          (sym (travel-trails s i w name d))
        ∙ full in
      elim (Bool-cases (point_eq p goal)) [
        | inl at_goal ↦
            let e = (point_eq_iff p goal).0 at_goal in
            subst (λ (x : Point). owner_at (travel s i w name d).territories x ≢ "") (sym e)
              (goal-owner (
                subst
                  (λ (x : Point).
                    trail_mask (board (travel s i w name d)) (travel s i w name d).trails x ≡ 63)
                  e full))
        | inr off_goal ↦ elim (Bool-cases (point_eq p w.position)) [
          | inl at_source ↦
              let e = (point_eq_iff p w.position).0 at_source in
              subst (λ (x : Point). owner_at (travel s i w name d).territories x ≢ "") (sym e)
                (source-owner (
                  subst
                    (λ (x : Point).
                      trail_mask (board s) (insert (edge_at (board s) w.position d) name s.trails) x
                      ≡ 63)
                    e full'))
          | inr off_source ↦ travel-owned p (
              captured p (
                sym (
                  trail_mask-insert (board s) s.trails w.position goal p name
                    (λ e. ground (arith, (point_eq_iff p w.position).1 e))
                    (λ e. ground (arith, (point_eq_iff p goal).1 e)))
                ∙ full'))
        ]
      ]

  perform-Captured : Captured s → Captured (perform s i w name d).0
  unfolding perform settle emit
  perform-Captured captured =
      elim (Bool-cases (mask_at (emit (travel s i w name d) (move_event s w name d)) goal == 63)) [
        | inl full ↦ rw full (travel-Captured captured)
        | inr spoke ↦ rw spoke (travel-Captured captured)
      ]

-- Step, whether it accepts the move or rejects it, keeps the invariant of a state and that a point
-- has an owner exactly when trails run along its six spokes: in a state with both, afterwards
-- stored territory masks again show only trails, every trail is a spoke of the board, names are
-- distinct and not empty, live worms stand on the board, each score is the number of territories
-- that the worm has completed, and each point with six taken spokes, and no other, has an owner.
pub step-OwnersExact :
    (s : State) (name : String) (d : Direction)
    → WellFormed s
    → OwnersExact s
    → WellFormed (step s name d).0 × OwnersExact (step s name d).0
step-OwnersExact s name d h exact = (
  step-WellFormed s name d h,
  elim (result_cases (step s name d).1) [
    | inr (e, refused) ↦ subst OwnersExact (sym (step_error_unchanged s name d refused)) exact
    | inl (e, done) ↦
        let (i, w, here, named, found, p, result) = step_performs s name d done in
        let from = h.worms_ok.on_board i here p.live in
        let to = Inside-of_in_bounds (board s) (neighbor (board s) w.position d) p.within in
        let some_name = λ (e : name ≡ ""). h.worms_ok.named i here (named ∙ e) in
        let after =
          perform-Captured s i w name d h here named p.valid from to some_name
            ((OwnersExact-Captured s h).0 exact) in
        let after' = subst Captured (sym (ap (λ (r : State × Result Event). r.0) result)) after in
        (OwnersExact-Captured (step s name d).0 (step-WellFormed s name d h)).1 after'
  ],
)
