-- ===== src/Engine/Moves/WellFormed.antt =====
-- What holds of the engine's state between two operations.
use worms_ng.Prelude.{
  Bool, Bool-cases, List, String, [], ap, arith, contains, count_if, get_elem?, inl, inr, insert,
  lookup, modify, pos, refl, some, str_eq, subst, suc, sym, true, zero, ℕ, ◌&&◌, ◌<◌, ◌==◌, ◌∙◌,
  ◌∷◌, ◌≡◌, ◌≢◌, ◌⊎◌,
}
use worms_ng.Engine.Board.{edge_at, neighbor}
use worms_ng.Engine.Board.Torus.{Inside, IsSound}
use worms_ng.Engine.Masks.Laws.{Shows, Shows-insert, contains-insert}
use worms_ng.Engine.Types.{
  Board, Direction, Edge, Point, State, Territories, Territory, Trails, Worm, board, edge_eq,
  edge_eq_iff, edge_key, point_key,
}

-- The completed territories of a worm, as `Validate` counts them.
abbrev pub completes : String → Point × Territory → Bool
completes name (p, t) = t.mask == 63 && str_eq t.owner name

abbrev pub completed : String → Territories → ℕ
completed name territories = count_if (completes name) territories

-- A stored territory shows only trails, and has an owner exactly when its mask is full.
pub record TerritoryOk (b : Board) (trails : Trails) (p : Point) (t : Territory) : Type 0 where
  pub shows : Shows b trails p t.mask
  pub full_owned : t.mask ≡ 63 → t.owner ≢ ""
  pub owned_full : t.owner ≢ "" → t.mask ≡ 63

-- A trail is a spoke between two points of the board.
abbrev pub IsSpoke : Board → Edge → Type 0
IsSpoke b e =
    (p : Point) × (d : Direction) × (d < 6)
    × Inside b p
    × Inside b (neighbor b p d)
    × (e ≡ edge_at b p d)

-- The worms have names of their own, and stand on the board while they live.
pub record WormsOk (b : Board) (ws : List Worm) : Type 0 where
  pub named : (i : ℕ) {w : Worm} → get_elem? ws i ≡ some w → w.id ≢ ""
  pub distinct :
      (i j : ℕ) {v w : Worm}
      → get_elem? ws i ≡ some v
      → get_elem? ws j ≡ some w
      → v.id ≡ w.id
      → i ≡ j
  pub on_board : (i : ℕ) {w : Worm} → get_elem? ws i ≡ some w → w.alive ≡ true → Inside b w.position

abbrev pub TerritoriesOk : Board → Trails → Territories → Type 0
TerritoriesOk b trails territories =
    (p : Point) (t : Territory) → lookup p territories ≡ some t → TerritoryOk b trails p t

abbrev pub TrailsOk : Board → Trails → Type 0
TrailsOk b trails = (e : Edge) → contains e trails ≡ true → IsSpoke b e

-- Each score is the number of territories that the worm has completed.
abbrev pub ScoresOk : Territories → List Worm → Type 0
ScoresOk territories ws =
    (i : ℕ) (w : Worm) → get_elem? ws i ≡ some w → w.score ≡ pos (completed w.id territories)

pub record Wf (b : Board) (trails : Trails) (territories : Territories) (ws : List Worm)
    : Type 0 where
  pub sound : IsSound b
  pub territories_ok : TerritoriesOk b trails territories
  pub trails_ok : TrailsOk b trails
  pub worms_ok : WormsOk b ws
  pub scores_ok : ScoresOk territories ws

-- The invariant of a state. The tick, the round and the events take no part in it.
abbrev pub WellFormed : State → Type 0
WellFormed s = Wf (board s) s.trails s.territories s.worms

trails_insert :
    (b : Board) (trails : Trails) (e : Edge) (name : String)
    → IsSpoke b e
    → TrailsOk b trails
    → TrailsOk b (insert e name trails)
trails_insert b trails e name spoke h f c = elim (Bool-cases (edge_eq e f)) [
  | inl same ↦ subst (IsSpoke b) ((edge_eq_iff e f).0 same) spoke
  | inr other ↦
      let old : contains f (insert e name trails) ≡ contains f trails =
        contains-insert trails e f name ∙ rw other refl in
      h f (sym old ∙ c)
]

-- A new trail along a spoke keeps the invariant.
pub claim-Wf :
    {b : Board} {trails : Trails} {territories : Territories} {ws : List Worm} (e : Edge)
    (name : String)
    → IsSpoke b e
    → Wf b trails territories ws
    → Wf b (insert e name trails) territories ws
claim-Wf {b} {trails} e name spoke h = record {
  sound = h.sound;
  territories_ok = λ p t' l.
      let t = h.territories_ok p t' l in
      record {
        shows = Shows-insert b trails p _ e name t.shows;
        full_owned = t.full_owned;
        owned_full = t.owned_full;
      };
  trails_ok = λ f c. trails_insert b trails e name spoke h.trails_ok f c;
  worms_ok = h.worms_ok;
  scores_ok = h.scores_ok;
}

-- A worm of a changed list is the changed one, or one of another slot.
pub modified_cases :
    (ws : List Worm) (i j : ℕ) (f : Worm → Worm) {v : Worm}
    → get_elem? (modify ws i f) j ≡ some v
    → (i ≡ j) × ((w : Worm) × (get_elem? ws j ≡ some w) × (v ≡ f w))
      ⊎ (i ≢ j) × (get_elem? ws j ≡ some v)
modified_cases [] i j f h = cc
modified_cases (x ∷ ws) zero zero f h = inl (refl, (x, refl, ground arith))
modified_cases (x ∷ ws) zero (suc j) f h = inr (λ e. omega arith, h)
modified_cases (x ∷ ws) (suc i) zero f h = inr (λ e. omega arith, h)
modified_cases (x ∷ ws) (suc i) (suc j) f h = elim (modified_cases ws i j f h) [
  | inl (e, found) ↦ inl (ap suc e, found)
  | inr (ne, found) ↦ inr (λ e. omega arith, found)
]

-- Changing a worm keeps the invariant, if it keeps the name and the score, and stands on the board
-- while it lives.
module _ (ws : List Worm) (i : ℕ) (f : Worm → Worm)
    (same : (w : Worm) → get_elem? ws i ≡ some w → (f w).id ≡ w.id) where
  -- The worm that stood in the slot before has the same name.
  modified_from :
      (j : ℕ) {v : Worm}
      → get_elem? (modify ws i f) j ≡ some v
      → (w : Worm) × (get_elem? ws j ≡ some w) × (v.id ≡ w.id)
  modified_from j {v} h = elim (modified_cases ws i j f h) [
    | inl (e, (w, found, image)) ↦
        (w, found, ap (λ (x : Worm). x.id) image ∙ same w (ap (get_elem? ws) e ∙ found))
    | inr (ne, found) ↦ (v, found, refl)
  ]

  pub modify-WormsOk :
      (b : Board)
      → ((w : Worm) → get_elem? ws i ≡ some w → (f w).alive ≡ true → Inside b (f w).position)
      → WormsOk b ws
      → WormsOk b (modify ws i f)
  modify-WormsOk b stays h = record {
    named = λ j g e. let (w, found, kept) = modified_from j g in h.named j found (sym kept ∙ e);
    distinct = λ j k g g' e.
        let (v, found, kept) = modified_from j g in
        let (w, found', kept') = modified_from k g' in
        h.distinct j k found found' (sym kept ∙ (e ∙ kept'));
    on_board = λ j {w} g live. elim (modified_cases ws i j f g) [
      | inl (e, (v, found, image)) ↦
          subst (λ (x : Worm). Inside b x.position) (sym image)
            (stays v (ap (get_elem? ws) e ∙ found) (sym (ap (λ (x : Worm). x.alive) image) ∙ live))
      | inr (ne, found) ↦ h.on_board j found live
    ];
  }

  pub modify-ScoresOk :
      (territories : Territories)
      → ((w : Worm) → get_elem? ws i ≡ some w → (f w).score ≡ w.score)
      → ScoresOk territories ws
      → ScoresOk territories (modify ws i f)
  modify-ScoresOk territories kept h j v g = elim (modified_cases ws i j f g) [
    | inl (e, (w, found, image)) ↦
        let there = ap (get_elem? ws) e ∙ found in
        ap (λ (x : Worm). x.score) image
        ∙ (kept w there
            ∙ (h j w found
                ∙ ap (λ (x : String). pos (completed x territories))
                    (sym (ap (λ (x : Worm). x.id) image ∙ same w there))))
    | inr (ne, found) ↦ h j v found
  ]

pub modify-Wf :
    (b : Board) (trails : Trails) (territories : Territories) (ws : List Worm) (i : ℕ)
    (f : Worm → Worm)
    → ((w : Worm) → (f w).id ≡ w.id)
    → ((w : Worm) → (f w).score ≡ w.score)
    → ((w : Worm) → get_elem? ws i ≡ some w → (f w).alive ≡ true → Inside b (f w).position)
    → Wf b trails territories ws
    → Wf b trails territories (modify ws i f)
modify-Wf b trails territories ws i f same kept stays h = record {
  sound = h.sound;
  territories_ok = h.territories_ok;
  trails_ok = h.trails_ok;
  worms_ok = modify-WormsOk ws i f (λ u g. same u) b stays h.worms_ok;
  scores_ok = modify-ScoresOk ws i f (λ u g. same u) territories (λ u g. kept u) h.scores_ok;
}
