-- ===== src/Tournament/Seats/Colors.antt =====
-- The rotation of the colours in tournament.go.
use native.Mathlib.Decide.{dec_lt}
use native.Mathlib.Nat.{add-mod-mod, mod-eq-sub-mod, mod-eq_of_lt, mod-lt}
use worms_ng.Prelude.{
  List, String, [], ap, arith, get_elem?, get_elem?-lt, get_or, get_or-eq_of_get_elem?, inl, inr,
  length, refl, some, subst, suc, sym, true, zero, ℕ, ◌%◌, ◌+◌, ◌-◌, ◌<◌, ◌∙◌, ◌∷◌, ◌≡◌, ◌≢◌, ◌≤◌,
  ◌⊎◌,
}
use worms_ng.Engine.Types.{Worm}
use worms_ng.Tournament.{Participant}
use worms_ng.Tournament.Seats.{color_at, seat_worms, turn_of}

wrapped : (x n : ℕ) → x < n + n → (x < n) × (x % n ≡ x) ⊎ (n ≤ x) × (x % n ≡ x - n)
wrapped x n h = elim (dec_lt x n) [
  | yes low ↦ inl (low, mod-eq_of_lt low)
  | no high ↦
      let over : n ≤ x = omega arith in
      let rest : x - n < n = omega arith in inr (over, mod-eq-sub-mod over ∙ mod-eq_of_lt rest)
]

-- In one round, two slots have different entries.
turn_of-injective :
    (n round i j : ℕ) → i < n → j < n → turn_of n round i ≡ turn_of n round j → i ≡ j
turn_of-injective n round i j low low' same =
    let r = round % n in
    let short : r < n = mod-lt round (omega arith) in
    let e : (i + r) % n ≡ (j + r) % n =
      add-mod-mod i round n ∙ (same ∙ sym (add-mod-mod j round n)) in
    elim (wrapped (i + r) n (omega arith)) [
      | inl a ↦ elim (wrapped (j + r) n (omega arith)) [
        | inl b ↦ omega (arith, a.1, b.1, e)
        | inr b ↦ omega (arith, a.0, a.1, b.0, b.1, e)
      ]
      | inr a ↦ elim (wrapped (j + r) n (omega arith)) [
        | inl b ↦ omega (arith, a.0, a.1, b.0, b.1, e)
        | inr b ↦ omega (arith, a.0, a.1, b.0, b.1, e)
      ]
    ]

-- Within `n` rounds, a slot has every entry.
turn_of-reaches : (n i k : ℕ) → i < n → k < n → (round : ℕ) × (round < n) × (turn_of n round i ≡ k)
turn_of-reaches n i k low low' = elim (dec_lt k i) [
  | no h ↦
      let e : i + (k - i) ≡ k = omega arith in
      (k - i, omega arith, ap (λ (x : ℕ). x % n) e ∙ mod-eq_of_lt low')
  | yes h ↦
      let e : i + (k + n - i) ≡ k + n = omega arith in
      let over : n ≤ k + n = omega arith in
      let back : k + n - n ≡ k = omega arith in
      (
        k + n - i,
        omega arith,
        ap (λ (x : ℕ). x % n) e
            ∙ (mod-eq-sub-mod over ∙ (ap (λ (x : ℕ). x % n) back ∙ mod-eq_of_lt low')),
      )
]

-- No two entries are the same.
abbrev pub AllDifferent : List String → Type 0
AllDifferent palette =
    (i j : ℕ) (a : String) → get_elem? palette i ≡ some a → get_elem? palette j ≡ some a → i ≡ j

module _ {S : Type 0} (palette : List String) (round : ℕ) where
  seat_worms-color :
      (first : ℕ) (ps : List (Participant S)) (ws : List Worm) (i : ℕ) {w : Worm}
      → get_elem? (seat_worms palette round first ps ws) i ≡ some w
      → (w.color ≡ color_at palette round (first + i)) × (i < length ps)
  unfolding seat_worms
  seat_worms-color first [] ws i h = cc
  seat_worms-color first (p ∷ ps) [] i h = cc
  seat_worms-color first (p ∷ ps) (v ∷ ws) zero {w} h =
      let here : first ≡ first + 0 = omega arith in
      (subst (λ (x : ℕ). w.color ≡ color_at palette round x) here (ground arith), omega arith)
  seat_worms-color first (p ∷ ps) (v ∷ ws) (suc i) {w} h =
      let (color, low) = seat_worms-color (suc first) ps ws i h in
      let there : suc first + i ≡ first + suc i = omega arith in
      (subst (λ (x : ℕ). w.color ≡ color_at palette round x) there color, omega arith)

-- A slot that is taken in one round is taken in each.
seat_worms-there :
    {S : Type 0} (palette : List String) (round turn first : ℕ) (ps : List (Participant S))
    (ws : List Worm) (i : ℕ) {w : Worm}
    → get_elem? (seat_worms palette round first ps ws) i ≡ some w
    → (u : Worm) × (get_elem? (seat_worms palette turn first ps ws) i ≡ some u)
unfolding seat_worms
seat_worms-there palette round turn first [] ws i h = cc
seat_worms-there palette round turn first (p ∷ ps) [] i h = cc
seat_worms-there palette round turn first (p ∷ ps) (v ∷ ws) zero h =
    (record v { id = p.id; color = color_at palette turn first; alive = true }, refl)
seat_worms-there palette round turn first (p ∷ ps) (v ∷ ws) (suc i) h =
    seat_worms-there palette round turn (suc first) ps ws i h

-- The entry at an index in range.
palette_entry :
    (palette : List String) (i : ℕ)
    → i < length palette
    → get_elem? palette i ≡ some (get_or palette i "")
palette_entry palette i low =
    let (a, there) = get_elem?-lt palette i low in
    there ∙ ap some (sym (get_or-eq_of_get_elem? palette i "" there))

module _ {S : Type 0} (palette : List String) (ps : List (Participant S)) (ws : List Worm)
    (fits : length palette ≡ length ps) where
  -- The worms of a round.
  abbrev pub seats : ℕ → List Worm
  seats round = seat_worms palette round 0 ps ws

  different_colors :
      (round i j : ℕ) {v w : Worm}
      → AllDifferent palette
      → get_elem? (seats round) i ≡ some v
      → get_elem? (seats round) j ≡ some w
      → v.color ≡ w.color
      → i ≡ j
  different_colors round i j {v} {w} different g g' e =
      let n = length palette in
      let (c, low) = seat_worms-color palette round 0 ps ws i g in
      let (c', low') = seat_worms-color palette round 0 ps ws j g' in
      let some_n : 0 < n = omega (arith, fits) in
      let x = turn_of n round i in
      let y = turn_of n round j in
      let zero_i : 0 + i ≡ i = omega arith in
      let zero_j : 0 + j ≡ j = omega arith in
      let same : get_or palette x "" ≡ get_or palette y "" =
        ap (color_at palette round) (sym zero_i)
        ∙ (sym c ∙ (e ∙ (c' ∙ ap (color_at palette round) zero_j))) in
      let there = palette_entry palette x (mod-lt (i + round) some_n) ∙ ap some same in
      turn_of-injective n round i j (omega (arith, fits)) (omega (arith, fits)) (
        different x y (get_or palette y "") there
          (palette_entry palette y (mod-lt (j + round) some_n)))

  -- With a palette of as many colours as participants, all different, two worms of a round have
  -- different colours, and within as many rounds as there are participants the worm of a slot has
  -- each colour of the palette.
  pub seats_rotate :
      (round i j k : ℕ) {v w : Worm}
      → AllDifferent palette
      → get_elem? (seats round) i ≡ some v
      → get_elem? (seats round) j ≡ some w
      → i ≢ j
      → k < length ps
      → (v.color ≢ w.color)
        × ((turn : ℕ) × (turn < length ps)
            × ((u : Worm) × (get_elem? (seats turn) i ≡ some u) × (u.color ≡ get_or palette k "")))
  seats_rotate round i j k different g g' ne low =
      let n = length palette in
      let (c, early) = seat_worms-color palette round 0 ps ws i g in
      let (turn, soon, there) = turn_of-reaches n i k (omega (arith, fits)) (omega (arith, fits)) in
      let (u, seated) = seat_worms-there palette round turn 0 ps ws i g in
      let zero_i : 0 + i ≡ i = omega arith in
      (
        λ e. ne (different_colors round i j different g g' e),
        (
          turn,
          omega (arith, fits),
          (
            u,
            seated,
            (seat_worms-color palette turn 0 ps ws i seated).0
                ∙ ap (λ (x : ℕ). get_or palette x "") (ap (turn_of n turn) zero_i ∙ there),
          ),
        ),
      )
