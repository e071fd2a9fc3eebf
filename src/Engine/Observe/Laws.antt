-- ===== src/Engine/Observe/Laws.antt =====
-- The winners have the best score, and the packed observation can be read back.
use worms_ng.Prelude.{
  Bool-cases, List, String, [], any, ap, arith, eq_of_parts, eq_ℤ, eq_ℤ_iff, get_elem?,
  if◌then◌else◌, inl, inr, ltb_ℤ, negsuc, pos, refl, some, str_eq, str_eq_iff, subst, suc, sym,
  true, zero, ℕ, ℤ, ◌&&◌, ◌↔◌, ◌∙◌, ◌∷◌, ◌≡◌, ◌≤ℤ◌,
}
use worms_ng.Engine.Observe.{best_score, names_with, winners}
use worms_ng.Engine.Types.{State, Worm}

best_score_above : (best : ℤ) (ws : List Worm) → best ≤ℤ best_score best ws
unfolding best_score
best_score_above best [] = omega arith
best_score_above best (w ∷ ws) =
    let first = if ltb_ℤ best w.score then w.score else best in
    let rise : best ≤ℤ first = ground arith in
    let rest = best_score_above first ws in omega (arith, rise, rest)

-- The best score bounds every score.
best_score_bounds :
    (best : ℤ) (ws : List Worm) (i : ℕ) {w : Worm}
    → get_elem? ws i ≡ some w
    → w.score ≤ℤ best_score best ws
unfolding best_score
best_score_bounds best [] i g = cc
best_score_bounds best (v ∷ ws) zero {w} g =
    let first = if ltb_ℤ best v.score then v.score else best in
    let rise : v.score ≤ℤ first = ground arith in
    let rest = best_score_above first ws in
    let same : v ≡ w = ground arith in
    subst (λ (x : Worm). x.score ≤ℤ best_score first ws) same (omega (arith, rise, rest))
best_score_bounds best (v ∷ ws) (suc i) g =
    best_score_bounds (if ltb_ℤ best v.score then v.score else best) ws i g

-- What bounds all of them, and the start, bounds the best score.
best_score_least :
    (best top : ℤ) (ws : List Worm)
    → best ≤ℤ top
    → ((i : ℕ) (w : Worm) → get_elem? ws i ≡ some w → w.score ≤ℤ top)
    → best_score best ws ≤ℤ top
unfolding best_score
best_score_least best top [] h all = h
best_score_least best top (v ∷ ws) h all =
    best_score_least (if ltb_ℤ best v.score then v.score else best) top ws
      (let first = all 0 v refl in ground arith) (λ i w g. all (suc i) w g)

-- A worm whose score is `best`.
record Holder (best : ℤ) (ws : List Worm) (name : String) : Type 0 where
  slot : ℕ
  worm : Worm
  here : get_elem? ws slot ≡ some worm
  named : worm.id ≡ name
  scored : worm.score ≡ best

names_with_sound :
    (best : ℤ) (ws : List Worm) (name : String)
    → any (str_eq name) (names_with best ws) ≡ true
    → Holder best ws name
unfolding names_with
names_with_sound best [] name h = absurd (ground arith)
names_with_sound best (w ∷ ws) name h = elim (Bool-cases (eq_ℤ w.score best && str_eq name w.id)) [
  | inl found ↦ record {
    slot = 0;
    worm = w;
    here = refl;
    named = sym ((str_eq_iff name w.id).0 (ground arith));
    scored = (eq_ℤ_iff w.score best).0 (ground arith);
  }
  | inr other ↦
      let later = names_with_sound best ws name (ground arith) in
      record {
        slot = suc later.slot;
        worm = later.worm;
        here = later.here;
        named = later.named;
        scored = later.scored;
      }
]

names_with_complete :
    (best : ℤ) (ws : List Worm) (name : String) (i : ℕ) {w : Worm}
    → get_elem? ws i ≡ some w
    → w.id ≡ name
    → w.score ≡ best
    → any (str_eq name) (names_with best ws) ≡ true
unfolding names_with
names_with_complete best [] name i g named scored = cc
names_with_complete best (v ∷ ws) name zero {w} g named scored =
    let same : v ≡ w = ground arith in
    let own = (str_eq_iff name v.id).1 (sym named ∙ ap (λ (x : Worm). x.id) (sym same)) in
    let top = (eq_ℤ_iff v.score best).1 (ap (λ (x : Worm). x.score) same ∙ scored) in
    rw top (rw own refl)
names_with_complete best (v ∷ ws) name (suc i) g named scored =
    let rest = names_with_complete best ws name i g named scored in ground arith

-- While no score is negative, Winners lists exactly the names of the worms whose score no worm
-- exceeds.
pub winners_iff :
    (s : State) (name : String)
    → ((i : ℕ) (w : Worm) → get_elem? s.worms i ≡ some w → pos 0 ≤ℤ w.score)
    → (any (str_eq name) (winners s) ≡ true)
      ↔ (i : ℕ) × (w : Worm) × (get_elem? s.worms i ≡ some w)
        × (w.id ≡ name)
        × ((j : ℕ) (v : Worm) → get_elem? s.worms j ≡ some v → v.score ≤ℤ w.score)
unfolding winners
winners_iff s name fair = (
  λ listed.
      let h = names_with_sound (best_score (negsuc 0) s.worms) s.worms name listed in
      (
        h.slot,
        h.worm,
        h.here,
        h.named,
        λ j v g.
            subst (λ (x : ℤ). v.score ≤ℤ x) (sym h.scored)
              (best_score_bounds (negsuc 0) s.worms j g),
      ),
  λ (i, w, here, named, top).
      let floor = fair i w here in
      let least = best_score_least (negsuc 0) w.score s.worms (omega arith) top in
      let bound = best_score_bounds (negsuc 0) s.worms i here in
      names_with_complete (best_score (negsuc 0) s.worms) s.worms name i here named
        (eq_of_parts w.score (best_score (negsuc 0) s.worms) (omega (arith, least, bound))),
)
