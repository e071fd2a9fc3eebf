-- ===== src/Planner/Choice.antt =====
-- What `planUnknown` of planner.go chooses.
use native.Mathlib.Nat.{mod-lt}
use worms_ng.Prelude.{
  ==_iff, All, All-map, Bool, Bool-cases, List, String, [], any, ap, arith, eq_ℤ, eq_ℤ_iff, false,
  get_elem?, if_elim, if◌then◌else◌, inl, inr, is_empty, leb, length, ltb, ltb_ℤ, map, option_elim,
  refl, some, subst, suc, sym, true, zero, ℕ, ℤ, ◌+◌, ◌<◌, ◌==◌, ◌||◌, ◌∙◌, ◌∷◌, ◌≡◌, ◌≤ℤ◌, ◌⊎◌,
}
use worms_ng.Engine.Auto.Choice.{Listed, Listed-self}
use worms_ng.Engine.Moves.{legal_moves, step}
use worms_ng.Engine.Snapshot.{insert_sorted, sort_by}
use worms_ng.Engine.Types.{Direction, Event, Result, State, Worm, err, ok, to_action}
use worms_ng.Planner.{Alternative, Config, Decision, Planned, planned, unplanned}
use worms_ng.Planner.Plans.{
  Hashes, best_total, choose, decide, plan_unknown, tie_index, tie_indices,
}
use worms_ng.Planner.Scores.{score, tried}

-- The best total is reached by an alternative, or it is the first value.
best_total-ge : (best : ℤ) (alts : List Alternative) → best ≤ℤ best_total best alts
unfolding best_total
best_total-ge best [] = ground arith
best_total-ge best (a ∷ alts) =
    ground (arith, best_total-ge (if ltb_ℤ best a.total then a.total else best) alts)

best_total-All :
    (best : ℤ) (alts : List Alternative) → All (λ a. a.total ≤ℤ best_total best alts) alts
unfolding best_total
best_total-All best [] = tt
best_total-All best (a ∷ alts) =
    let next = if ltb_ℤ best a.total then a.total else best in
    (ground (arith, best_total-ge next alts), best_total-All next alts)

-- Whether some alternative has the total `best`.
abbrev reached : ℤ → List Alternative → Bool
reached best alts = any (λ a. eq_ℤ a.total best) alts

best_total-reached :
    (best : ℤ) (alts : List Alternative)
    → (best_total best alts ≡ best) ⊎ (reached (best_total best alts) alts ≡ true)
unfolding best_total
best_total-reached best [] = inl refl
best_total-reached best (a ∷ alts) =
    ground (arith, best_total-reached (if ltb_ℤ best a.total then a.total else best) alts)

head_reached :
    (a : Alternative) (alts : List Alternative)
    → reached (best_total a.total (a ∷ alts)) (a ∷ alts) ≡ true
head_reached a alts =
    ground (
      arith,
      best_total-reached a.total (a ∷ alts),
      eq_ℤ_iff a.total (best_total a.total (a ∷ alts)),
    )

ties_some :
    (best : ℤ) (i : ℕ) (alts : List Alternative)
    → reached best alts ≡ true
    → 0 < length (tie_indices best i alts)
unfolding tie_indices
ties_some best i [] h = cc
ties_some best i (a ∷ alts) h = ground (arith, ties_some best (suc i) alts)

-- A tie is the index of an alternative with the best total.
abbrev Tied : ℤ → ℕ → List Alternative → ℕ → Type 0
Tied best i alts j =
    (k : ℕ) × ((j ≡ i + k) × ((a : Alternative) × ((get_elem? alts k ≡ some a) × (a.total ≡ best))))

tie_later :
    (best : ℤ) (i : ℕ) (b : Alternative) (alts : List Alternative) (j : ℕ)
    → Tied best (suc i) alts j
    → Tied best i (b ∷ alts) j
tie_later best i b alts j (k, (e, (a, (found, total)))) =
    (suc k, (omega (arith, e), (a, (found, total))))

ties_All :
    (best : ℤ) (i : ℕ) (alts : List Alternative) → All (Tied best i alts) (tie_indices best i alts)
unfolding tie_indices
ties_All best i [] = tt
ties_All best i (a ∷ alts) =
    let rest =
      All-map (Tied best (suc i) alts) (Tied best i (a ∷ alts)) _ (tie_later best i a alts)
        (ties_All best (suc i) alts) in
    if_elim (All (Tied best i (a ∷ alts))) (eq_ℤ a.total best)
      (λ e. ((0, (omega arith, (a, (refl, (eq_ℤ_iff a.total best).0 e)))), rest)) (λ e. rest)

tie_index-lt :
    (h : Hashes) (c : Config) (local : String) (s : State) (name : String) (mask n : ℕ)
    → 0 < n
    → tie_index h c local s name mask n < n
unfolding tie_index
tie_index-lt h c local s name mask n some' =
    if_elim (λ x. x < n) (leb n 1) (λ e. some') (λ e. mod-lt _ some')

get_below : (xs : List ℕ) (i : ℕ) → i < length xs → (a : ℕ) × (get_elem? xs i ≡ some a)
get_below [] i h = absurd (omega (arith, h))
get_below (x ∷ xs) zero h = (x, refl)
get_below (x ∷ xs) (suc i) h = get_below xs i (omega (arith, h))

get_All {κ} :
    {A : Type 0} (P : A → Type κ) (xs : List A) (i : ℕ) (x : A)
    → All P xs
    → get_elem? xs i ≡ some x
    → P x
get_All P [] i x h e = cc
get_All P (y ∷ xs) zero x h e = subst P (ground arith) h.0
get_All P (y ∷ xs) (suc i) x h e = get_All P xs i x h.1 e

-- The decision is for one of the alternatives, and none has a greater total.
unfoldable pub Best : ℕ → List Alternative → Planned Decision → Type 0
Best mask alts (unplanned e) = ⊥
Best mask alts (planned d) =
    (k : ℕ) × ((a : Alternative) × ((get_elem? alts k ≡ some a)
        × (d.action ≡ to_action a.action)
        × (d.mask ≡ mask)
        × All (λ b. b.total ≤ℤ a.total) alts))

choose-Best :
    (h : Hashes) (c : Config) (s : State) (w : Worm) (mask : ℕ) (local : String) (a : Alternative)
    (alts : List Alternative)
    → Best mask (a ∷ alts) (choose h c s w mask local (a ∷ alts))
unfolding choose Best decide
choose-Best h c s w mask local a alts =
    let all = a ∷ alts in
    let best = best_total a.total all in
    let ties = tie_indices best 0 all in
    let some' = ties_some best 0 all (head_reached a alts) in
    let index = tie_index h c local s w.id mask (length ties) in
    let tie = get_below ties index (tie_index-lt h c local s w.id mask (length ties) some') in
    option_elim (Best mask all) (get_elem? ties index) (λ e. absurd (ground (arith, tie.1, e)))
      (λ i e.
        let (k, (same, (b, (found, total)))) =
          get_All (Tied best 0 all) ties index i (ties_All best 0 all) e in
        let found' : get_elem? all i ≡ some b = ap (get_elem? all) (omega (arith, same)) ∙ found in
        option_elim (Best mask all) (get_elem? all i) (λ n. absurd (ground (arith, found', n)))
          (λ b' here.
            let total' : b'.total ≡ best = ground (arith, found', here, total) in
            (
              i,
              (
                b',
                (
                  here,
                  refl,
                  refl,
                  subst (λ t. All (λ (x : Alternative). x.total ≤ℤ t) all) (sym total')
                      (best_total-All a.total all),
                ),
              ),
            )))

tried-action :
    (c : Config) (i : ℕ) (name : String) (before : ℤ) (d : Direction) (r : State × Result Event)
    → (tried c i name before d r).action ≡ d
unfolding tried
tried-action c i name before d (s, err e) = refl
tried-action c i name before d (s, ok e) =
    option_elim (λ (a : Alternative). a.action ≡ d) (get_elem? s.worms i) (λ e. refl) (λ v e. refl)

-- The scores keep their directions.
score-action :
    (c : Config) (s : State) (i : ℕ) (w : Worm) (d : Direction) → (score c s i w d).action ≡ d
unfolding score
score-action c s i w d = tried-action c i w.id w.score d (step s w.id d)

get_map :
    {A B : Type 0} (f : A → B) (xs : List A) (i : ℕ) (y : B)
    → get_elem? (map f xs) i ≡ some y
    → (x : A) × ((get_elem? xs i ≡ some x) × (f x ≡ y))
get_map f [] i y h = cc
get_map f (x ∷ xs) zero y h = (x, (refl, ground arith))
get_map f (x ∷ xs) (suc i) y h = get_map f xs i y h

any-insert_sorted :
    (f : Direction → Bool) (less : Direction → Direction → Bool) (x : Direction)
    (xs : List Direction)
    → any f (insert_sorted less x xs) ≡ (f x || any f xs)
unfolding insert_sorted
any-insert_sorted f less x [] = refl
any-insert_sorted f less x (y ∷ xs) = ground (arith, any-insert_sorted f less x xs)

any-sort_by :
    (f : Direction → Bool) (less : Direction → Direction → Bool) (xs : List Direction)
    → any f (sort_by less xs) ≡ any f xs
unfolding sort_by
any-sort_by f less [] = refl
any-sort_by f less (x ∷ xs) =
    ground (arith, any-insert_sorted f less x (sort_by less xs), any-sort_by f less xs)

get-Listed : (ds : List Direction) (i : ℕ) (d : Direction) → get_elem? ds i ≡ some d → Listed ds d
get-Listed ds i d h = get_All (Listed ds) ds i d (Listed-self ds) h

pub All_listed {κ} :
    (P : Direction → Type κ) (ds : List Direction) (d : Direction) → All P ds → Listed ds d → P d
All_listed P [] d h l = cc
All_listed P (x ∷ ds) d h l = elim (Bool-cases (x == d)) [
  | inl same ↦ subst P ((==_iff x d).0 same) h.0
  | inr other ↦ All_listed P ds d h.1 (ground arith)
]

All_of_map {κ} :
    {A B : Type 0} (P : B → Type κ) (f : A → B) (xs : List A)
    → All P (map f xs)
    → All (λ x. P (f x)) xs
All_of_map P f [] h = tt
All_of_map P f (x ∷ xs) h = (h.0, All_of_map P f xs h.1)

-- What a plan is for the worm `w` in slot `i`: a legal move, whose score has the greatest total.
unfoldable pub BestMove : ℕ → Config → State → ℕ → Worm → Planned Decision → Type 0
BestMove mask c s i w (unplanned e) = ⊥
BestMove mask c s i w (planned p) =
    (d : Direction) × ((p.action ≡ to_action d)
      × (p.mask ≡ mask)
      × Listed (legal_moves s w.id) d
      × ((e : Direction)
          → Listed (legal_moves s w.id) e
          → (score c s i w e).total ≤ℤ (score c s i w d).total))

BestMove-of_Best :
    (mask : ℕ) (c : Config) (s : State) (i : ℕ) (w : Worm) (p : Planned Decision)
    → Best mask (map (score c s i w) (sort_by ltb (legal_moves s w.id))) p
    → BestMove mask c s i w p
unfolding Best BestMove
BestMove-of_Best mask c s i w (unplanned e) h = h
BestMove-of_Best mask c s i w (planned p) (k, (a, (found, action, masked, totals))) =
    let f = score c s i w in
    let ds = sort_by ltb (legal_moves s w.id) in
    let (d, (here, same)) = get_map f ds k a found in
    let own : a.action ≡ d =
      ap (λ (x : Alternative). x.action) (sym same) ∙ score-action c s i w d in
    let bounds = All_of_map (λ b. b.total ≤ℤ a.total) f ds totals in
    (
      d,
      (
        action ∙ ap to_action own,
        masked,
        sym (any-sort_by (λ x. x == d) ltb (legal_moves s w.id)) ∙ get-Listed ds k d here,
        λ e l.
            subst (λ (x : Alternative). (f e).total ≤ℤ x.total) (sym same)
              (All_listed (λ e. (f e).total ≤ℤ a.total) ds e bounds
                (any-sort_by (λ x. x == e) ltb (legal_moves s w.id) ∙ l)),
      ),
    )

is_empty-map : {A B : Type 0} (f : A → B) (xs : List A) → is_empty (map f xs) ≡ is_empty xs
is_empty-map f [] = refl
is_empty-map f (x ∷ xs) = refl

is_empty-insert_sorted :
    (x : Direction) (xs : List Direction) → is_empty (insert_sorted ltb x xs) ≡ false
unfolding insert_sorted
is_empty-insert_sorted x [] = refl
is_empty-insert_sorted x (y ∷ xs) =
    if_elim (λ (l : List Direction). is_empty l ≡ false) (ltb x y) (λ e. refl) (λ e. refl)

is_empty-sort_by : (xs : List Direction) → is_empty (sort_by ltb xs) ≡ is_empty xs
unfolding sort_by
is_empty-sort_by [] = refl
is_empty-sort_by (x ∷ xs) = is_empty-insert_sorted x (sort_by ltb xs)

choose_alternatives :
    (h : Hashes) (c : Config) (s : State) (w : Worm) (mask : ℕ) (local : String)
    (alts : List Alternative)
    → is_empty alts ≡ false
    → Best mask alts (choose h c s w mask local alts)
choose_alternatives h c s w mask local [] free = cc
choose_alternatives h c s w mask local (a ∷ alts) free = choose-Best h c s w mask local a alts

-- For a worm with a legal move, planUnknown returns a decision for the mask, whose action is a
-- legal move, and no legal move has a score with a greater total.
pub plan_unknown-BestMove :
    (h : Hashes) (c : Config) (s : State) (i mask : ℕ) (local : String) (w : Worm)
    → get_elem? s.worms i ≡ some w
    → is_empty (legal_moves s w.id) ≡ false
    → BestMove mask c s i w (plan_unknown h c s i mask local)
unfolding plan_unknown
plan_unknown-BestMove h c s i mask local w found free =
    let ds = sort_by ltb (legal_moves s w.id) in
    let some' = is_empty-map (score c s i w) ds ∙ is_empty-sort_by (legal_moves s w.id) ∙ free in
    rw (found, plan_unknown)
      (rw free (
        BestMove-of_Best mask c s i w _
          (choose_alternatives h c s w mask local (map (score c s i w) ds) some')))
