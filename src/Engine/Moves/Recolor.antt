-- ===== src/Engine/Moves/Recolor.antt =====
-- A territory that `recolorCapture` writes at a point, and what the write does to the counts.
pub mod Capture
use worms_ng.Prelude.{
  Bool, Bool-cases, Option-cases, String, ap, arith, bit_or, count_if-insert, count_if-insert_new,
  false, if◌then◌else◌, inl, inr, insert, lookup, lookup-insert, pos, refl, some, str_eq_iff, subst,
  sym, true, ℕ, ◌+ℤ◌, ◌+◌, ◌∙◌, ◌≡◌, ◌≢◌,
}
use worms_ng.Engine.Masks.{stored_territory, trail_mask}
use worms_ng.Engine.Masks.Laws.{
  Shows, Shows-trail_mask, Shows-zero, trail_mask_absorbs, trail_mask_full, trail_mask_lt,
}
use worms_ng.Engine.Moves.WellFormed.{
  ScoresOk, TerritoriesOk, TerritoryOk, WellFormed, completed, completes,
}
use worms_ng.Engine.Types.{
  Board, Point, State, Territories, Territory, Trails, board, edge_key, point_eq, point_eq_iff,
  point_key,
}
use worms_ng.Prelude.Bits.{bit_or_comm}

module _ (b : Board) (trails : Trails) (territories : Territories) (p : Point) where
  -- What is stored, or the zero value, satisfies the invariant.
  pub stored_TerritoryOk :
      TerritoriesOk b trails territories → TerritoryOk b trails p (stored_territory territories p)
  stored_TerritoryOk h = elim (Option-cases (lookup p territories)) [
    | inl absent ↦
        rw (absent, stored_territory)
          (record {
            shows = Shows-zero b trails p;
            full_owned = λ e. absurd (omega arith);
            owned_full = λ ne. absurd (ne refl);
          })
    | inr (t, found) ↦ rw (found, stored_territory) (h p t found)
  ]

  pub insert-TerritoriesOk :
      (t : Territory)
      → TerritoryOk b trails p t
      → TerritoriesOk b trails territories
      → TerritoriesOk b trails (insert p t territories)
  insert-TerritoriesOk t new h q u l = elim (Bool-cases (point_eq p q)) [
    | inl same ↦
        let stored : some t ≡ some u = sym (lookup-insert q p t territories ∙ rw same refl) ∙ l in
        let value : t ≡ u = cc in
        subst (λ (x : Point). TerritoryOk b trails x u) ((point_eq_iff p q).0 same)
          (subst (TerritoryOk b trails p) value new)
    | inr different ↦ h q u (sym (lookup-insert q p t territories ∙ rw different refl) ∙ l)
  ]

-- Writing a territory changes the counts by that territory alone.
pub completed-insert :
    (territories : Territories) (p : Point) (name : String) (t : Territory)
    → completed name (insert p t territories)
        + (if completes name (p, stored_territory territories p) then 1 else 0)
      ≡ completed name territories + (if completes name (p, t) then 1 else 0)
completed-insert territories p name t = elim (Option-cases (lookup p territories)) [
  | inl absent ↦
      rw (absent, stored_territory)
        (omega (arith, count_if-insert_new (completes name) p t territories absent))
  | inr (old, found) ↦
      rw (found, stored_territory) (count_if-insert (completes name) p t old territories found)
]

-- Equal amounts on both sides.
pub cancel :
    (m n : ℕ) (x y : Bool) → m + (if y then 1 else 0) ≡ n + (if x then 1 else 0) → x ≡ y → m ≡ n
cancel m n x y h e = ground arith

module _ (s : State) (p : Point) (h : WellFormed s) where
  abbrev old : Territory
  old = stored_territory s.territories p

  abbrev full : ℕ
  full = trail_mask (board s) s.trails p

  old_ok : TerritoryOk (board s) s.trails p old
  old_ok = stored_TerritoryOk (board s) s.trails s.territories p h.territories_ok

  -- The mask that is stored is the mask of the trails.
  pub recolored_mask : bit_or old.mask full ≡ full
  recolored_mask =
      bit_or_comm old.mask full old_ok.shows.0 (trail_mask_lt (board s) s.trails p)
      ∙ trail_mask_absorbs (board s) s.trails p old.mask old_ok.shows

  -- A territory with an owner is closed already.
  pub closed : old.owner ≢ "" → full ≡ 63
  closed owned =
      trail_mask_full (board s) s.trails p
        (subst (Shows (board s) s.trails p) (old_ok.owned_full owned) old_ok.shows)

  -- The territory that is stored, by what is known of its owner.
  pub new_ok :
      (t : Territory)
      → t.mask ≡ full
      → (full ≡ 63 → t.owner ≢ "")
      → (t.owner ≢ "" → full ≡ 63)
      → TerritoryOk (board s) s.trails p t
  new_ok t e f g = record {
    shows = subst (Shows (board s) s.trails p) (sym e) (Shows-trail_mask (board s) s.trails p);
    full_owned = λ k. f (sym e ∙ k);
    owned_full = λ k. e ∙ g k;
  }

  -- A write that completes nothing keeps the scores.
  pub same_scores :
      (t : Territory)
      → ((x : String) → x ≢ "" → completes x (p, t) ≡ completes x (p, old))
      → ScoresOk (insert p t s.territories) s.worms
  same_scores t same i w g =
      let e = same w.id (h.worms_ok.named i g) in
      let counted = completed-insert s.territories p w.id t in
      h.scores_ok i w g ∙ ap pos (sym (cancel _ _ _ _ counted e))

pub completes_self :
    (name : String) (p : Point) (t : Territory)
    → t.mask ≡ 63
    → t.owner ≡ name
    → completes name (p, t) ≡ true
completes_self name p t e f = ground (arith, str_eq_iff t.owner name)

pub not-completes :
    (name : String) (p : Point) (t : Territory) → t.owner ≢ name → completes name (p, t) ≡ false
not-completes name p t ne = ground (arith, str_eq_iff t.owner name)

pub one_more :
    (m n : ℕ) (x y : Bool)
    → m + (if y then 1 else 0) ≡ n + (if x then 1 else 0)
    → y ≡ false
    → x ≡ true
    → pos n +ℤ pos 1 ≡ pos m
unfolding ◌+ℤ◌
one_more m n x y h e f = ground arith
