-- ===== src/Engine/Generate.antt =====
-- board.go: boards drawn from a seed.
pub mod Laws
use worms_ng.Prelude.{
  List, String, [], eq_ℤ, false, get_or, if◌then◌else◌, length, ltb_ℤ, modify, none, not, pos,
  pos_part, some, suc, true, zero, ℕ, ℤ, ◌%◌, ◌&&◌, ◌+◌, ◌-◌, ◌||◌, ◌∷◌,
}
use worms_ng.Engine.Board.{points}
use worms_ng.Engine.Rules.{xorshift}
use worms_ng.Engine.Setup.{
  Checked, bad_classic_size, bad_dimensions, bad_participants, checked, few_points, new_bounded,
  new_classic_validated, refused, validate_worms,
}
use worms_ng.Engine.Types.{
  Point, RulesMode, State, Worm, board, controller_new, is_classic, no_move, origin,
}

pub record BoardConfig : Type 0 where
  pub mode : RulesMode
  pub width : ℤ
  pub height : ℤ
  pub participants : ℤ
  pub seed : ℕ

-- `fmt.Sprintf("worm-%d", i)`, for the at most four participants.
abbrev pub worm_name : ℕ → String
worm_name i = get_or ("worm-0" ∷ "worm-1" ∷ "worm-2" ∷ "worm-3" ∷ []) i ""

-- `Worm{...}` with the fields that GenerateBoard sets.
abbrev pub fresh_worm : ℕ → Worm
fresh_worm i = record {
  id = worm_name i;
  color = "";
  position = origin;
  alive = true;
  score = pos 0;
  previous = no_move;
  crix = no_move;
  controller = controller_new;
  rules = λ m. pos 0;
  rule_uses = λ m. 0;
  brain_id = "";
  brain_version = "";
  brain_seed = 0;
  frozen = false;
}

-- The worms from number `i` on, `n` of them.
unfoldable pub fresh_worms : ℕ → ℕ → List Worm
fresh_worms zero i = []
fresh_worms (suc n) i = fresh_worm i ∷ fresh_worms n (i + 1)

-- `points[i], points[j] = points[j], points[i]`, for indices in range
unfoldable pub swap : List Point → ℕ → ℕ → List Point
swap ps i j =
    let a = get_or ps i origin in
    let b = get_or ps j origin in modify (modify ps i (λ p. b)) j (λ p. a)

-- The loop from `i` down to 1; `x` is the random state.
unfoldable pub shuffle : ℕ → ℕ → List Point → List Point
unfolding xorshift
shuffle zero x ps = ps
shuffle (suc i) x ps = let y = xorshift x in shuffle i y (swap ps (suc i) (y % (suc i + 1)))

-- `s.Worms[i].Position = points[i]` for the worms in turn.
unfoldable pub place_worms : List Worm → List Point → List Worm
place_worms (w ∷ ws) (p ∷ ps) = record w { position = p } ∷ place_worms ws ps
place_worms ws _ = ws

-- The draw of starts on a modern board.
unfoldable pub draw_starts : State → ℕ → State
draw_starts s seed =
    let ps = points (board s) in
    record s { worms = place_worms s.worms (shuffle (length ps - 1) seed ps) }

-- `GenerateBoard`
unfoldable pub generate_board : BoardConfig → Checked
generate_board c =
    let width = if is_classic c.mode && eq_ℤ c.width (pos 0) then pos 18 else c.width in
    let height = if is_classic c.mode && eq_ℤ c.height (pos 0) then pos 18 else c.height in
    let worms = fresh_worms (pos_part c.participants) 0 in
    let s = new_bounded width height worms in
    if ltb_ℤ c.participants (pos 1) || ltb_ℤ (pos 4) c.participants
    then refused bad_participants
    else if is_classic c.mode && (not (eq_ℤ width (pos 18)) || not (eq_ℤ height (pos 18)))
    then refused bad_classic_size
    else if not (is_classic c.mode) && (ltb_ℤ width (pos 1) || ltb_ℤ height (pos 1))
    then refused bad_dimensions
    else if is_classic c.mode
    then new_classic_validated worms
    else elim (validate_worms worms) [
      | some fault ↦ refused fault
      | none ↦
          if ltb_ℤ (pos (length (points (board s)))) c.participants
          then refused few_points
          else checked (draw_starts s c.seed)
    ]
