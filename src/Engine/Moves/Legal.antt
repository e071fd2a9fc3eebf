-- ===== src/Engine/Moves/Legal.antt =====
-- The worm that a name finds, the tests of `Step`, and `LegalMoves` against them.
use worms_ng.Prelude.{
  ==_iff, Bool-cases, List, Option-cases, String, [], any, arith, contains, false, get_elem?, inl,
  inr, none, not, refl, some, str_eq, str_eq_iff, suc, true, ℕ, ◌&&◌, ◌<◌, ◌==◌, ◌||◌, ◌∷◌, ◌≡◌,
}
use worms_ng.Engine.Board.{edge_at, in_bounds, neighbor}
use worms_ng.Engine.Masks.{find_worm, has_worm, mask_at, worm_index}
use worms_ng.Engine.Moves.{is_open, legal_moves, open_moves, step_refusal}
use worms_ng.Engine.Types.{
  Direction, Point, State, Worm, board, directions, edge_key, is_classic, point_key,
  valid_direction,
}
use worms_ng.Prelude.Bits.{has_bit}

pub worm_index_lem :
    (ws : List Worm) (name : String) {i : ℕ}
    → worm_index ws name ≡ some i
    → (w : Worm) × (get_elem? ws i ≡ some w) × (w.id ≡ name)
unfolding worm_index
worm_index_lem [] name e = cc
worm_index_lem (w ∷ ws) name {i} e = elim (Bool-cases (str_eq w.id name)) [
  | inl same ↦
      let zeroth : i ≡ 0 = ground arith in rw zeroth (w, refl, (str_eq_iff w.id name).0 same)
  | inr differs ↦ elim (Option-cases (worm_index ws name)) [
    | inl absent ↦ absurd (ground arith)
    | inr (j, found) ↦
        let later : i ≡ suc j = ground arith in
        let (v, there, same) = worm_index_lem ws name found in rw later (v, there, same)
  ]
]

-- The facts that `Step` has tested before it moves.
pub record Passes (s : State) (w : Worm) (d : Direction) : Type 0 where
  pub live : w.alive ≡ true
  pub valid : d < 6
  pub free : has_bit (mask_at s w.position) d ≡ false
  pub within : in_bounds (board s) (neighbor (board s) w.position d) ≡ true
  pub vacant :
      (is_classic s.mode || not (has_worm s.worms (neighbor (board s) w.position d))) ≡ true
  pub unclaimed : contains (edge_at (board s) w.position d) s.trails ≡ false

pub Passes-of_none :
    (s : State) (w : Worm) (d : Direction) → step_refusal s w d ≡ none → Passes s w d
unfolding step_refusal
Passes-of_none s w d e = ground arith

pub none-of_Passes :
    (s : State) (w : Worm) (d : Direction) → Passes s w d → step_refusal s w d ≡ none
unfolding step_refusal
none-of_Passes s w d p = ground arith

-- A direction is listed exactly when its tests hold.
any-open_moves :
    (s : State) (m : ℕ) (p : Point) (d : Direction) (ds : List Direction)
    → any (λ x. x == d) (open_moves s m p ds) ≡ (any (λ x. x == d) ds && is_open s m p d)
unfolding open_moves
any-open_moves s m p d [] = refl
any-open_moves s m p d (x ∷ ds) = elim (Bool-cases (x == d)) [
  | inl same ↦ let eq : x ≡ d = (==_iff x d).0 same in ground (arith, any-open_moves s m p d ds)
  | inr differs ↦ ground (arith, any-open_moves s m p d ds)
]

any-directions : (d : Direction) → any (λ x. x == d) directions ≡ valid_direction d
any-directions d = ground arith

-- What `LegalMoves` tests of a direction.
pub legal_moves_lem :
    (s : State) (name : String) (d : Direction) {w : Worm}
    → find_worm s.worms name ≡ some w
    → any (λ x. x == d) (legal_moves s name)
      ≡ (w.alive && valid_direction d && is_open s (mask_at s w.position) w.position d)
unfolding legal_moves
legal_moves_lem s name d {w} e =
    ground
      (arith, any-open_moves s (mask_at s w.position) w.position d directions, any-directions d)
