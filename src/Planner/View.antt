-- ===== src/Planner/View.antt =====
-- A move that is legal in the simulation world of planner.go is legal in the state.
use worms_ng.Prelude.{
  ==_iff, All, Bool, Bool-cases, List, String, [], any, ap, arith, false, if_elim, if◌then◌else◌,
  inl, inr, insert, lookup, lookup-insert_ne, lookup-insert_self, ltb, not, option_elim, refl, some,
  str_eq_self, sym, true, ℕ, ◌&&◌, ◌-◌, ◌<◌, ◌==◌, ◌^◌, ◌||◌, ◌∙◌, ◌∷◌, ◌≡◌,
}
use worms_ng.Engine.Auto.Choice.{Listed}
use worms_ng.Engine.Board.{neighbor}
use worms_ng.Engine.Board.Distinct.{neighbor-ne_plane}
use worms_ng.Engine.Board.Torus.{IsSound}
use worms_ng.Engine.Masks.{find_worm, mask_at, mask_of, trail_mask, worm_index}
use worms_ng.Engine.Masks.Laws.{trail_mask_lt}
use worms_ng.Engine.Moves.{is_open, legal_moves, open_moves}
use worms_ng.Engine.Moves.Legal.{legal_moves_lem}
use worms_ng.Engine.Observe.{Observation}
use worms_ng.Engine.Types.{
  Board, Direction, Point, State, Territories, Territory, Trails, Worm, directions, edge_key,
  point_key, valid_direction,
}
use worms_ng.Planner.Local.{
  add_neighbors, bare_territory, clear_bits, local_board, local_planning_state,
}
use worms_ng.Prelude.Bits.{
  bit_or_comm, has_bit, has_bit-bit_or, has_bit-full, has_bit-zero, six, six_elim, sweep, swept,
}

-- Clearing a bit of a mask, checked at every mask.
clear_test : ℕ → ℕ → Bool
unfolding six has_bit
clear_test m e =
    let n = if has_bit m e then m - 2 ^ e else m in
    ltb n 64 && six (λ d. d == e || not (has_bit m d) || has_bit n d)

clear_table : sweep 64 (λ m. sweep 6 (clear_test m)) ≡ true
unfolding sweep clear_test
clear_table = refl

cleared : (m e : ℕ) → m < 64 → e < 6 → clear_test m e ≡ true
cleared m e hm he =
    swept 6 (clear_test m) e he (swept 64 (λ m. sweep 6 (clear_test m)) m hm clear_table)

clear_bit : ℕ → ℕ → ℕ
clear_bit m e = if has_bit m e then m - 2 ^ e else m

clear_lt : (m e : ℕ) → m < 64 → e < 6 → clear_bit m e < 64
unfolding clear_test clear_bit
clear_lt m e hm he = ground (arith, cleared m e hm he)

clear_keeps :
    (m e d : ℕ)
    → m < 64
    → e < 6
    → d < 6
    → (d == e) ≡ false
    → has_bit m d ≡ true
    → has_bit (clear_bit m e) d ≡ true
unfolding clear_test clear_bit
clear_keeps m e d hm he hd ne h =
    let tests : six (λ d. d == e || not (has_bit m d) || has_bit (clear_bit m e) d) ≡ true =
      ground (arith, cleared m e hm he) in
    ground
      (arith, six_elim (λ d. d == e || not (has_bit m d) || has_bit (clear_bit m e) d) d tests hd)

-- A direction that is not listed keeps its bit.
clear_bits-keep :
    (m : ℕ) (ds : List Direction) (d : Direction)
    → m < 64
    → All (λ e. e < 6) ds
    → d < 6
    → any (λ x. x == d) ds ≡ false
    → has_bit m d ≡ true
    → (has_bit (clear_bits m ds) d ≡ true) × (clear_bits m ds < 64)
unfolding clear_bits clear_bit
clear_bits-keep m [] d hm all hd absent h = (h, hm)
clear_bits-keep m (e ∷ ds) d hm all hd absent h =
    clear_bits-keep (clear_bit m e) ds d (clear_lt m e hm all.0) all.1 hd (ground arith)
      (clear_keeps m e d hm all.0 hd (ground arith) h)

-- A stored bit is a bit of the mask.
mask_of-stored :
    (b : Board) (trails : Trails) (territories : Territories) (p : Point) (d : Direction)
    (t : Territory)
    → lookup p territories ≡ some t
    → t.mask < 64
    → d < 6
    → has_bit t.mask d ≡ true
    → has_bit (mask_of b trails territories p) d ≡ true
unfolding mask_of
mask_of-stored b trails territories p d t found fits hd h =
    let m = trail_mask b trails p in
    let both = bit_or_comm m t.mask (trail_mask_lt b trails p) fits in
    let bit = has_bit-bit_or t.mask m d fits (omega (arith, trail_mask_lt b trails p)) hd h in
    rw (found, mask_of)
      (if_elim (λ x. has_bit x d ≡ true) (t.mask == 0)
        (λ empty.
          let none' : t.mask ≡ 0 = (==_iff t.mask 0).0 empty in
          absurd (ground (arith, has_bit-zero d hd, ap (λ x. has_bit x d) none')))
        (λ e. ap (λ x. has_bit x d) both ∙ bit))

local-IsSound : IsSound local_board
local-IsSound = record { wide = omega arith; high = omega arith; even_rows = λ e t. cc }

add_neighbors-lookup :
    (p : Point) (counts : List ℕ) (ds : List Direction) (territories : Territories)
    → All (λ d. d < 6) ds
    → lookup p (add_neighbors local_board p counts ds territories) ≡ lookup p territories
unfolding add_neighbors
add_neighbors-lookup p counts [] territories h = refl
add_neighbors-lookup p counts (d ∷ ds) territories h =
    let q = neighbor local_board p d in
    add_neighbors-lookup p counts ds _ h.1
    ∙ lookup-insert_ne p q _ territories (neighbor-ne_plane local_board p d local-IsSound refl h.0)

six_valid : All (λ d. d < 6) directions
six_valid =
    (omega arith, (omega arith, (omega arith, (omega arith, (omega arith, (omega arith, tt))))))

open_moves-valid :
    (s : State) (m : ℕ) (p : Point) (ds : List Direction)
    → All (λ d. d < 6) ds
    → All (λ d. d < 6) (open_moves s m p ds)
unfolding open_moves
open_moves-valid s m p [] h = tt
open_moves-valid s m p (d ∷ ds) h =
    let rest = open_moves-valid s m p ds h.1 in
    if_elim (All (λ d. d < 6)) (is_open s m p d) (λ e. (h.0, rest)) (λ e. rest)

pub legal_moves-valid : (s : State) (name : String) → All (λ d. d < 6) (legal_moves s name)
unfolding legal_moves
legal_moves-valid s name =
    option_elim (All (λ d. d < 6)) (find_worm s.worms name) (λ e. tt)
      (λ w e.
        if_elim (All (λ d. d < 6)) (not w.alive) (λ e. tt)
          (λ e. open_moves-valid s (mask_at s w.position) w.position directions six_valid))

alone : (w : Worm) → find_worm (w ∷ []) w.id ≡ some w
unfolding find_worm worm_index
alone w = rw (str_eq_self w.id, find_worm, worm_index) refl

passes_valid :
    (l : State) (w : Worm) (d : Direction)
    → (w.alive && valid_direction d && is_open l (mask_at l w.position) w.position d) ≡ true
    → d < 6
passes_valid l w d h = ground arith

passes_free :
    (l : State) (w : Worm) (d : Direction)
    → (w.alive && valid_direction d && is_open l (mask_at l w.position) w.position d) ≡ true
    → has_bit (mask_at l w.position) d ≡ false
unfolding is_open
passes_free l w d h = ground arith

-- The blocked mask is a part of the mask of the worm's place.
local_bit :
    (s : State) (w : Worm) (obs : Observation) (d : Direction)
    → All (λ e. e < 6) obs.legal
    → d < 6
    → has_bit (clear_bits 63 obs.legal) d ≡ true
    → clear_bits 63 obs.legal < 64
    → has_bit (mask_at (local_planning_state s w obs) w.position) d ≡ true
unfolding local_planning_state
local_bit s w obs d valid fits bit small =
    let own = bare_territory w.position (clear_bits 63 obs.legal) in
    let start = insert w.position own [] in
    let stored =
      add_neighbors-lookup w.position obs.local_territory_counts directions start six_valid in
    mask_of-stored local_board [] _ w.position d own (stored ∙ lookup-insert_self w.position own [])
      small fits bit

-- A move that is legal in the local view is one of the observed legal moves.
pub local_planning_state-legal :
    (s : State) (w : Worm) (obs : Observation) (d : Direction)
    → All (λ e. e < 6) obs.legal
    → Listed (legal_moves (local_planning_state s w obs) w.id) d
    → Listed obs.legal d
unfolding local_planning_state
local_planning_state-legal s w obs d valid h = elim (Bool-cases (any (λ x. x == d) obs.legal)) [
  | inl listed ↦ listed
  | inr absent ↦
      let l = local_planning_state s w obs in
      let there : find_worm l.worms w.id ≡ some w = alone w in
      let facts = sym (legal_moves_lem l w.id d there) ∙ h in
      let fits : d < 6 = passes_valid l w d facts in
      let kept =
        clear_bits-keep 63 obs.legal d (omega arith) valid fits absent (has_bit-full d fits) in
      absurd (ground (arith, passes_free l w d facts, local_bit s w obs d valid fits kept.0 kept.1))
]
