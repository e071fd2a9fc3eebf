-- ===== src/Tournament/Seats.antt =====
-- The worms of a round of tournament.go: who plays in which slot, in which colour, from which seed.
pub mod Colors
use worms_ng.Prelude.{
  Dict, List, Option, String, [], get_or, if◌then◌else◌, insert, length, ltb, map, negsuc, none,
  pos, some, str_eq, string_eq, suc, true, ℕ, ℤ, ◌%◌, ◌*◌, ◌+ℤ◌, ◌+◌, ◌-◌, ◌^◌, ◌∷◌,
}
use worms_ng.Engine.Masks.{colors}
use worms_ng.Engine.Types.{Worm}
use worms_ng.Match.{Controller}
use worms_ng.Match.Setup.{Config}
use worms_ng.Tournament.{Office, Participant, Tournament}

-- An int64, of the 64 bits `x`.
abbrev pub signed64 : ℕ → ℤ
signed64 x = if ltb x (2 ^ 63) then pos x else negsuc (2 ^ 64 - 1 - x)

-- `x = x<<8 | int64(b)`, over the bytes.
unfoldable pub fold_bytes : ℕ → List ℕ → ℕ
fold_bytes x [] = x
fold_bytes x (b ∷ bs) = fold_bytes ((x * 256 + b) % 2 ^ 64) bs

-- The entry of the palette for the slot `i`.
abbrev pub turn_of : ℕ → ℕ → ℕ → ℕ
turn_of n round i = (i + round) % n

abbrev pub color_at : List String → ℕ → ℕ → String
color_at palette round i = get_or palette (turn_of (length palette) round i) ""

module _ {S : Type 0} where
  -- `deriveSeed`
  unfoldable pub derive_seed : Office S → ℤ → ℕ → ℤ
  derive_seed o seed round = signed64 (fold_bytes 0 (o.digest seed round))

  -- The colours of the participants, from slot `i` on.
  unfoldable pub palette_from : Office S → ℕ → List (Participant S) → List String
  palette_from o i [] = []
  palette_from o i (p ∷ ps) =
      (if str_eq p.color "" then o.color_name i else p.color) ∷ palette_from o (suc i) ps

  -- The worms that play. The loop stops with the participants, or where a worm is missing, which
  -- `validate` excludes.
  unfoldable pub seat_worms : List String → ℕ → ℕ → List (Participant S) → List Worm → List Worm
  seat_worms palette round i [] ws = []
  seat_worms palette round i (p ∷ ps) [] = []
  seat_worms palette round i (p ∷ ps) (w ∷ ws) =
      record w { id = p.id; color = color_at palette round i; alive = true }
      ∷ seat_worms palette round (suc i) ps ws

  unfoldable pub seat_colors :
      List String → ℕ → ℕ → List (Participant S) → Dict String String → Dict String String
  seat_colors palette round i [] colors = colors
  seat_colors palette round i (p ∷ ps) colors =
      seat_colors palette round (suc i) ps (insert p.id (color_at palette round i) colors)

  -- A participant with no controller plays at random.
  unfoldable pub seat_controllers :
      Office S → ℤ → ℕ → List (Participant S) → List (Option (Controller S))
  seat_controllers o seed i [] = []
  seat_controllers o seed i (p ∷ ps) =
      some (elim p.controller [ none ↦ o.random (seed +ℤ pos i) | some c ↦ c ])
      ∷ seat_controllers o seed (suc i) ps

  -- The configuration of the match of a round.
  unfoldable pub round_config : Office S → Tournament S → ℕ → String → Config S
  round_config o t round game =
      let c = t.config in
      let seed = derive_seed o c.seed round in
      let palette = palette_from o 0 c.participants in
      record {
        has_store = c.has_store;
        game_id = game;
        previous_game_id = "";
        profile_ids = [];
        brain_version_id = "";
        brain_version_ids = map (λ p. p.brain_version_id) c.participants;
        initial = record c.state {
          worms = seat_worms palette round 0 c.participants c.state.worms;
        };
        controllers = seat_controllers o seed 0 c.participants;
        memory = o.memory;
        seed = seed;
        deadline = c.deadline;
        clock = c.clock;
      }
