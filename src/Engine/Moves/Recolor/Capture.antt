-- ===== src/Engine/Moves/Recolor/Capture.antt =====
-- `recolorCapture` keeps the invariant: a point that is closed pays its owner once.
use worms_ng.Prelude.{
  ==_iff, Bool-cases, String, ap, arith, bit_or, false, get_elem?, inl, inr, insert, modify, pos,
  refl, some, str_eq, str_eq_iff, sym, true, ℕ, ℤ, ◌+ℤ◌, ◌==◌, ◌∙◌, ◌≡◌, ◌≢◌,
}
use worms_ng.Engine.Masks.{stored_territory, trail_mask}
use worms_ng.Engine.Moves.{recolor_capture}
use worms_ng.Engine.Moves.Recolor.{
  cancel, closed, completed-insert, completes_self, insert-TerritoriesOk, new_ok, not-completes,
  one_more, recolored_mask, same_scores, stored_TerritoryOk,
}
use worms_ng.Engine.Moves.WellFormed.{
  ScoresOk, TerritoryOk, WellFormed, Wf, completed, completes, modified_cases, modify-WormsOk,
}
use worms_ng.Engine.Types.{Point, State, Territory, Worm, board, edge_key, point_key}

module _ (s : State) (i : ℕ) (name : String) (p : Point) (h : WellFormed s) where
  abbrev before : Territory
  before = stored_territory s.territories p

  -- A capture pays the worm in slot `i`, and no other.
  captured_scores :
      (t : Territory) {w : Worm}
      → get_elem? s.worms i ≡ some w
      → w.id ≡ name
      → before.owner ≡ ""
      → t.mask ≡ 63
      → t.owner ≡ name
      → ScoresOk
          (insert p t s.territories)
          (modify s.worms i (λ w. record w { score = w.score +ℤ pos 1 }))
  captured_scores t {w} here named free shut own j v g = elim (modified_cases s.worms i j _ g) [
    | inl (e, (u, found, image)) ↦
        let same : v.id ≡ u.id = ap (λ (x : Worm). x.id) image in
        let slot : some u ≡ some w = sym found ∙ (ap (get_elem? s.worms) (sym e) ∙ here) in
        let twin : u ≡ w = cc in
        let mine : u.id ≡ name = ap (λ (x : Worm). x.id) twin ∙ named in
        let empty = λ (k : before.owner ≡ u.id). h.worms_ok.named j found (sym k ∙ free) in
        let counted = completed-insert s.territories p u.id t in
        ap (λ (x : Worm). x.score) image
        ∙ (ap (λ (x : ℤ). x +ℤ pos 1) (h.scores_ok j u found)
            ∙ (one_more _ _ _ _ counted (not-completes u.id p before empty)
                  (completes_self u.id p t shut (own ∙ sym mine))
                ∙ ap (λ (x : String). pos (completed x (insert p t s.territories))) (sym same)))
    | inr (ne, found) ↦
        let apart =
          λ (k : t.owner ≡ v.id). ne (h.worms_ok.distinct i j here found (named ∙ (sym own ∙ k))) in
        let empty = λ (k : before.owner ≡ v.id). h.worms_ok.named j found (sym k ∙ free) in
        let counted = completed-insert s.territories p v.id t in
        h.scores_ok j v found
        ∙ ap pos (
            sym (
              cancel _ _ _ _ counted
                (not-completes v.id p t apart ∙ sym (not-completes v.id p before empty))))
  ]

module _ (s : State) (i : ℕ) (name : String) (p : Point) (color : String) (h : WellFormed s)
    {w : Worm} (here : get_elem? s.worms i ≡ some w) (named : w.id ≡ name) where
  abbrev found_mask : ℕ
  found_mask = bit_or (stored_territory s.territories p).mask (trail_mask (board s) s.trails p)

  found_mask_lem : found_mask ≡ trail_mask (board s) s.trails p
  found_mask_lem = recolored_mask s p h

  -- Storing a territory that pays nobody.
  unpaid :
      (t : Territory)
      → TerritoryOk (board s) s.trails p t
      → ((x : String)
          → x ≢ ""
          → completes x (p, t) ≡ completes x (p, stored_territory s.territories p))
      → Wf (board s) s.trails (insert p t s.territories) s.worms
  unpaid t new same = record {
    sound = h.sound;
    territories_ok = insert-TerritoriesOk (board s) s.trails s.territories p t new h.territories_ok;
    trails_ok = h.trails_ok;
    worms_ok = h.worms_ok;
    scores_ok = same_scores s p h t (same);
  }

  -- Storing a territory that the worm completes.
  paid :
      (t : Territory)
      → TerritoryOk (board s) s.trails p t
      → (stored_territory s.territories p).owner ≡ ""
      → t.mask ≡ 63
      → t.owner ≡ name
      → Wf
          (board s)
          s.trails
          (insert p t s.territories)
          (modify s.worms i (λ w. record w { score = w.score +ℤ pos 1 }))
  paid t new free shut own = record {
    sound = h.sound;
    territories_ok = insert-TerritoriesOk (board s) s.trails s.territories p t new h.territories_ok;
    trails_ok = h.trails_ok;
    worms_ok =
        modify-WormsOk s.worms i (λ w. record w { score = w.score +ℤ pos 1 }) (λ v g. refl)
          (board s) (λ v g live. h.worms_ok.on_board i g live) h.worms_ok;
    scores_ok = captured_scores s i name p h t here named (free) shut own;
  }

  -- A territory that has no owner counts for nobody.
  free_same :
      (t : Territory)
      → (stored_territory s.territories p).owner ≡ ""
      → t.owner ≡ ""
      → (x : String) → x ≢ ""
      → completes x (p, t) ≡ completes x (p, stored_territory s.territories p)
  free_same t e f x ne =
      not-completes x p t (λ k. ne (sym k ∙ f))
      ∙ sym (not-completes x p (stored_territory s.territories p) (λ k. ne (sym k ∙ e)))

  -- One that has an owner counts as before.
  owned_same :
      (t : Territory)
      → t.mask ≡ 63
      → (stored_territory s.territories p).mask ≡ 63
      → t.owner ≡ (stored_territory s.territories p).owner
      → (x : String) → x ≢ ""
      → completes x (p, t) ≡ completes x (p, stored_territory s.territories p)
  owned_same t e f g x ne = ground arith

  owner_of :
      str_eq (stored_territory s.territories p).owner "" ≡ true
      → (stored_territory s.territories p).owner ≡ ""
  owner_of = (str_eq_iff (stored_territory s.territories p).owner "").0

  owner_ne :
      str_eq (stored_territory s.territories p).owner "" ≡ false
      → (stored_territory s.territories p).owner ≢ ""
  owner_ne e k = ground (arith, str_eq_iff (stored_territory s.territories p).owner "")

  stored_ok :
      (t : Territory)
      → t.mask ≡ found_mask
      → (trail_mask (board s) s.trails p ≡ 63 → t.owner ≢ "")
      → (t.owner ≢ "" → trail_mask (board s) s.trails p ≡ 63)
      → TerritoryOk (board s) s.trails p t
  stored_ok t e f g = new_ok s p h t (e ∙ found_mask_lem) f g

  not_full : (found_mask == 63) ≡ false → ¬ (trail_mask (board s) s.trails p ≡ 63)
  not_full e k = ground (arith, found_mask_lem)

  old_full :
      str_eq (stored_territory s.territories p).owner "" ≡ false
      → (stored_territory s.territories p).mask ≡ 63
  old_full e =
      (stored_TerritoryOk (board s) s.trails s.territories p h.territories_ok).owned_full
        (owner_ne e)

  -- `recolorCapture`, called for the worm in its slot, keeps the invariant.
  pub recolor_capture-WellFormed : WellFormed (recolor_capture s i name p color)
  unfolding recolor_capture
  recolor_capture-WellFormed =
      let was = stored_territory s.territories p in
      let kept : Territory = record was { id = p; mask = found_mask } in
      let painted : Territory = record kept { color = color } in
      let all_taken = λ (shut : found_mask ≡ 63). sym found_mask_lem ∙ shut in
      elim (Bool-cases (found_mask == 63)) [
        | inl shut ↦
            let is_full = (==_iff found_mask 63).0 shut in
            elim (Bool-cases (str_eq was.owner "")) [
              | inl free ↦ rw shut (
                  rw free (
                    paid _
                      (stored_ok (record kept { owner = name; color = color }) refl
                        (λ k e. h.worms_ok.named i here (named ∙ e)) (λ ne. all_taken is_full))
                      (owner_of free) is_full refl))
              | inr taken ↦ rw shut (
                  rw taken (
                    unpaid kept
                      (stored_ok kept refl (λ k. owner_ne taken) (λ ne. all_taken is_full))
                      (owned_same kept is_full (old_full taken) refl)))
            ]
        | inr spoke ↦ elim (Bool-cases (str_eq was.owner "")) [
          | inl free ↦ rw spoke (
              rw free (
                unpaid painted
                  (stored_ok painted refl (λ k e. not_full spoke k)
                    (λ ne. absurd (ne (owner_of free))))
                  (free_same painted (owner_of free) (owner_of free))))
          | inr taken ↦ absurd (not_full spoke (closed s p h (owner_ne taken)))
        ]
      ]
