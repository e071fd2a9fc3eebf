-- ===== src/Engine/Setup/Valid.antt =====
-- What a state has that `Validate` accepts.
use worms_ng.Prelude.{
  All, Bool, Bool-cases, List, Option, String, [], any, ap, arith, contains, eq_ℤ_iff, false,
  get_elem?, if◌then◌else◌, inl, inr, is_blank, is_odd, none, not, pos, refl, some, str_eq,
  str_eq_iff, subst, suc, sym, true, zero, ℕ, ◌&&◌, ◌<ℤ◌, ◌<◌, ◌||◌, ◌∙◌, ◌∷◌, ◌≡◌, ◌≢◌,
}
use worms_ng.Engine.Board.{edge_at, in_bounds, neighbor}
use worms_ng.Engine.Board.Edges.{new_edge_ends}
use worms_ng.Engine.Board.Torus.{Inside, Inside-of_in_bounds}
use worms_ng.Engine.Masks.{is_spoke}
use worms_ng.Engine.Moves.WellFormed.{
  IsSpoke, ScoresOk, TerritoriesOk, TrailsOk, WellFormed, WormsOk, completed,
}
use worms_ng.Engine.Setup.{
  StateFault, bad_edge, check_id, check_scores, check_trails, check_worm, check_worms, far_edge,
  validate,
}
use worms_ng.Engine.Types.{
  Board, Edge, Point, State, Territories, Trails, Worm, board, directions, edge_eq, edge_eq_iff,
  edge_key, is_classic, is_toroidal, point_eq, point_key,
}

-- What the checks of a worm come to, after the names `seen`.
record Admitted (s : State) (seen : List String) (w : Worm) : Type 0 where
  named : is_blank w.id ≡ false
  fresh : any (str_eq w.id) seen ≡ false
  placed : w.alive ≡ true → in_bounds (board s) w.position ≡ true

check_worm-Admitted :
    (s : State) (seen : List String) (held : List Point) (w : Worm)
    → check_worm s seen held w ≡ none
    → Admitted s seen w
unfolding check_worm check_id
check_worm-Admitted s seen held w h = record {
  named = ground arith;
  fresh = ground arith;
  placed = λ live. ground arith;
}

check_worms-Admitted :
    (s : State) (seen : List String) (held : List Point) (ws : List Worm)
    → check_worms s seen held ws ≡ none
    → (i : ℕ) {w : Worm} → get_elem? ws i ≡ some w
    → Admitted s seen w
unfolding check_worms
check_worms-Admitted s seen held [] h i g = cc
check_worms-Admitted s seen held (v ∷ ws) h zero {w} g =
    let same : v ≡ w = ground arith in
    subst (Admitted s seen) same (check_worm-Admitted s seen held v (ground arith))
check_worms-Admitted s seen held (v ∷ ws) h (suc i) {w} g =
    let held' = if not (is_classic s.mode) && v.alive then v.position ∷ held else held in
    let later = check_worms-Admitted s (v.id ∷ seen) held' ws (ground arith) i g in
    record {
      named = later.named;
      fresh = let f = later.fresh in ground arith;
      placed = later.placed;
    }

-- No two worms have one name.
check_worms-distinct :
    (s : State) (seen : List String) (held : List Point) (ws : List Worm)
    → check_worms s seen held ws ≡ none
    → (i j : ℕ) {v w : Worm} → get_elem? ws i ≡ some v
    → get_elem? ws j ≡ some w
    → v.id ≡ w.id
    → i ≡ j
unfolding check_worms
check_worms-distinct s seen held [] h i j g g' e = cc
check_worms-distinct s seen held (u ∷ ws) h zero zero g g' e = refl
check_worms-distinct s seen held (u ∷ ws) h (suc i) (suc j) g g' e =
    let held' = if not (is_classic s.mode) && u.alive then u.position ∷ held else held in
    ap suc (check_worms-distinct s (u.id ∷ seen) held' ws (ground arith) i j g g' e)
check_worms-distinct s seen held (u ∷ ws) h zero (suc j) {v} {w} g g' e =
    let held' = if not (is_classic s.mode) && u.alive then u.position ∷ held else held in
    let f = (check_worms-Admitted s (u.id ∷ seen) held' ws (ground arith) j g').fresh in
    let same : u ≡ v = ground arith in
    let twin : w.id ≡ u.id = sym e ∙ ap (λ (x : Worm). x.id) (sym same) in
    absurd (ground (arith, (str_eq_iff w.id u.id).1 twin))
check_worms-distinct s seen held (u ∷ ws) h (suc i) zero {v} {w} g g' e =
    let held' = if not (is_classic s.mode) && u.alive then u.position ∷ held else held in
    let f = (check_worms-Admitted s (u.id ∷ seen) held' ws (ground arith) i g).fresh in
    let same : u ≡ w = ground arith in
    let twin : v.id ≡ u.id = e ∙ ap (λ (x : Worm). x.id) (sym same) in
    absurd (ground (arith, (str_eq_iff v.id u.id).1 twin))

blank_ne : (name : String) → is_blank name ≡ false → name ≢ ""
unfolding is_blank
blank_ne name h e = let blank : is_blank name ≡ true = rw e refl in absurd (ground arith)

validated_worms : (s : State) → check_worms s [] [] s.worms ≡ none → WormsOk (board s) s.worms
validated_worms s h = record {
  named = λ i {w} g. blank_ne w.id (check_worms-Admitted s [] [] s.worms h i g).named;
  distinct = check_worms-distinct s [] [] s.worms h;
  on_board = λ i {w} g live.
      Inside-of_in_bounds (board s) w.position
        ((check_worms-Admitted s [] [] s.worms h i g).placed live);
}

-- The element that passes a test.
any-found :
    (P : ℕ → Type 0) (f : ℕ → Bool) (xs : List ℕ)
    → All P xs
    → any f xs ≡ true
    → (x : ℕ) × P x × (f x ≡ true)
any-found P f [] all h = cc
any-found P f (x ∷ xs) all h = elim (Bool-cases (f x)) [
  | inl found ↦ (x, all.0, found)
  | inr other ↦ any-found P f xs all.1 (ground arith)
]

edge-IsSpoke :
    (b : Board) (e : Edge)
    → in_bounds b e.a ≡ true
    → in_bounds b e.b ≡ true
    → is_spoke b e.a e ≡ true
    → IsSpoke b e
edge-IsSpoke b e here there h =
    let (d, lt, found) =
      any-found (λ d. d < 6) (λ d. edge_eq (edge_at b e.a d) e) directions (omega arith) h in
    let same : edge_at b e.a d ≡ e = (edge_eq_iff (edge_at b e.a d) e).0 found in
    let a = Inside-of_in_bounds b e.a here in
    let to = neighbor b e.a d in
    let inside : Inside b to = elim (new_edge_ends e.a to) [
      | inl (first, second) ↦
          subst (Inside b) (sym (ap (λ (f : Edge). f.b) same) ∙ second)
            (Inside-of_in_bounds b e.b there)
      | inr (first, second) ↦ subst (Inside b) (sym (ap (λ (f : Edge). f.a) same) ∙ first) a
    ] in
    (e.a, d, lt, a, inside, sym same)

edge_passes :
    (x y z k : Bool) (rest : Option StateFault)
    → (if x || not y || not z then some bad_edge else if not k then some far_edge else rest) ≡ none
    → (y ≡ true) × (z ≡ true) × (k ≡ true) × (rest ≡ none)
edge_passes x y z k rest h = (ground arith, ground arith, ground arith, ground arith)

check_trails-TrailsOk :
    (b : Board) (trails : Trails) → check_trails b trails ≡ none → TrailsOk b trails
unfolding check_trails
check_trails-TrailsOk b [] h e c = absurd (ground arith)
check_trails-TrailsOk b ((f, owner) ∷ trails) h e c =
    let (here, there, spoke, later) =
      edge_passes (point_eq f.a f.b) (in_bounds b f.a) (in_bounds b f.b) (is_spoke b f.a f)
        (check_trails b trails) h in
    elim (Bool-cases (edge_eq f e)) [
      | inl same ↦ subst (IsSpoke b) ((edge_eq_iff f e).0 same) (edge-IsSpoke b f here there spoke)
      | inr other ↦
          let old : contains e ((f, owner) ∷ trails) ≡ contains e trails =
            rw (other, contains) refl in
          check_trails-TrailsOk b trails later e (sym old ∙ c)
    ]

check_scores-ScoresOk :
    (territories : Territories) (ws : List Worm)
    → check_scores territories ws ≡ none
    → ScoresOk territories ws
unfolding check_scores
check_scores-ScoresOk territories [] h i w g = cc
check_scores-ScoresOk territories (v ∷ ws) h zero w g =
    let same : v ≡ w = ground arith in
    subst (λ (x : Worm). x.score ≡ pos (completed x.id territories)) same
      (sym ((eq_ℤ_iff (pos (completed v.id territories)) v.score).0 (ground arith)))
check_scores-ScoresOk territories (v ∷ ws) h (suc i) w g =
    check_scores-ScoresOk territories ws (ground arith) i w g

-- The checks of a state that `Validate` accepts have all passed.
record Passed (s : State) : Type 0 where
  worms : check_worms s [] [] s.worms ≡ none
  trails : check_trails (board s) s.trails ≡ none
  scores : check_scores s.territories s.worms ≡ none
  even : (is_classic s.mode && is_toroidal s.topology && is_odd s.height) ≡ false

validate-Passed : (s : State) → validate s ≡ none → Passed s
unfolding validate
validate-Passed s h = record {
  worms = ground arith;
  trails = ground arith;
  scores = ground arith;
  even = ground arith;
}

-- A state that Validate accepts keeps the invariant, if its board is at least two wide and two
-- high, and its stored territories show only trails and have an owner exactly when they are full.
pub validate-WellFormed :
    (s : State)
    → validate s ≡ none
    → pos 1 <ℤ s.width
    → pos 1 <ℤ s.height
    → TerritoriesOk (board s) s.trails s.territories
    → WellFormed s
validate-WellFormed s h wide high territories =
    let p = validate-Passed s h in
    record {
      sound = record {
        wide = wide;
        high = high;
        even_rows = λ c t. let e = p.even in ground arith;
      };
      territories_ok = territories;
      trails_ok = check_trails-TrailsOk (board s) s.trails p.trails;
      worms_ok = validated_worms s p.worms;
      scores_ok = check_scores-ScoresOk s.territories s.worms p.scores;
    }
