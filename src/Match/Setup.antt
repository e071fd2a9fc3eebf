-- ===== src/Match/Setup.antt =====
-- `NewMatch` of internal/match/match.go, with validateConfig and hydrateSAME. What the store reads and
-- the hash in the name of a local game are parameters.
pub mod Start
pub mod Sources
pub mod History
use worms_ng.Prelude.{
  Bool, List, Option, String, [], any, eq_ℤ, get_elem?, if◌then◌else◌, is_empty, leb_ℤ, length, ltb,
  map, modify, negsuc, none, not, pos, pos_part, some, str_eq, suc, ℕ, ℤ, ◌&&◌, ◌==◌, ◌∷◌,
}
use worms_ng.Engine.Rules.{RuleTable, validate_rules}
use worms_ng.Engine.Setup.{StateFault, validate}
use worms_ng.Engine.Types.{RuleFault, State, Worm}
use worms_ng.Match.{Controller, Match, World, persist}
use worms_ng.Match.Same.{is_same}

-- `Config`; `memory i` is what the controller of slot `i` starts with, and `clock` is `Now`, or the
-- system's clock.
pub record Config (S : Type 0) : Type 0 where
  pub has_store : Bool
  pub game_id : String
  pub previous_game_id : String
  pub profile_ids : List String
  pub brain_version_id : String
  pub brain_version_ids : List String
  pub initial : State
  pub controllers : List (Option (Controller S))
  pub memory : ℕ → S
  pub seed : ℤ
  pub deadline : ℤ
  pub clock : ℕ → ℕ

-- A participant of a stored game. `profile` is the profile of its payload, or else its name.
pub record GameSlot : Type 0 where
  pub slot : ℤ
  pub profile : String
  pub brain_version_id : String

pub record Game : Type 0 where
  pub id : String
  pub status : String
  pub participants : List GameSlot

-- A brain version, with the table of its payload if it can be read.
pub record BrainVersion : Type 0 where
  pub id : String
  pub rules : Option RuleTable

pub data Found (A : Type 0) : Type 0 where
  found : A → Found A
  missing : Found A
  broken : String → Found A

-- `GetGame`, `ListGames` of the finished games, `GetBrainVersion`, `CreateGame` with the name of the
-- new game, and `local-<hash>-<seed>`.
pub record Archive (S : Type 0) : Type 0 where
  pub game : String → Found Game
  pub finished_games : Found (List Game)
  pub version : String → Found BrainVersion
  pub create : Match S → Found String
  pub local_name : State → ℤ → String

pub data SetupError : Type 0 where
  no_worms controller_count blank_worm not_completed missing_history unreadable_rules not_found :
      SetupError
  panics unverified : SetupError
  bad_state : StateFault → SetupError
  bad_table : RuleFault → SetupError
  store_error : String → SetupError

pub data Setup (A : Type 0) : Type 0 where
  ready : A → Setup A
  stops : SetupError → Setup A

infixl 5 ◌>>=◌
abbrev pub ◌>>=◌ : {A B : Type 0} → Setup A → (A → Setup B) → Setup B
ready a >>= f = f a
stops fault >>= f = stops fault

abbrev pub of_found : {A : Type 0} → Found A → Setup A
of_found (found a) = ready a
of_found missing = stops not_found
of_found (broken reason) = stops (store_error reason)

-- The version that a hydrated slot plays, and its table.
unfoldable pub load_rules : {S : Type 0} → Archive S → String → Setup (String × RuleTable)
load_rules a id = do
  v ← of_found (a.version id)
  elim v.rules [
    | none ↦ stops unreadable_rules
    | some rules ↦ elim (validate_rules rules) [
      | none ↦ ready (v.id, rules)
      | some fault ↦ stops (bad_table fault)
    ]
  ]

-- The first slot of a game, and of the games in turn, that SAME can take its table from.
unfoldable pub is_source : ℕ → String → GameSlot → Bool
is_source i profile p =
    eq_ℤ p.slot (pos i) && str_eq p.profile profile && not (str_eq p.brain_version_id "")

unfoldable pub find_slot : ℕ → String → List GameSlot → Option GameSlot
find_slot i profile [] = none
find_slot i profile (p ∷ ps) =
    let rest = find_slot i profile ps in if is_source i profile p then some p else rest

unfoldable pub find_source : ℕ → String → List Game → Option GameSlot
find_source i profile [] = none
find_source i profile (g ∷ games) =
    let rest = find_source i profile games in
    elim (find_slot i profile g.participants) [ none ↦ rest | some p ↦ some p ]

abbrev pub or_default : Option String → String → String
or_default none d = d
or_default (some v) d = if str_eq v "" then d else v

-- The install of a found table. A missing entry of `brainVersions` is a panic.
unfoldable pub install_same :
    ℕ → Worm → List String → String × RuleTable → Setup (Worm × List String)
install_same i w versions (id, rules) =
    if ltb i (length versions)
    then ready (record w { rules = rules }, modify versions i (λ v. id))
    else stops panics

module _ {S : Type 0} where
  -- `validateConfig`
  unfoldable pub validate_config : Config S → Option SetupError
  validate_config c =
      if is_empty c.initial.worms
      then some no_worms
      else if not (is_empty c.controllers) && not (length c.controllers == length c.initial.worms)
      then some controller_count
      else if any (λ w. str_eq w.id "") c.initial.worms
      then some blank_worm
      else none

  abbrev pub profile_of : Config S → ℕ → Worm → String
  profile_of c i w = or_default (get_elem? c.profile_ids i) w.id

  -- Whether the slot is one that hydrateSAME gives a table.
  abbrev pub wants_history : Config S → ℕ → Worm → Bool
  wants_history c i w =
      is_same w.controller && str_eq (or_default (get_elem? c.brain_version_ids i) "") ""

  -- The games in which `hydrateSAME` looks.
  unfoldable pub history_of : Archive S → Config S → Setup (List Game)
  history_of a c = if str_eq c.previous_game_id "" then of_found a.finished_games else do
    g ← of_found (a.game c.previous_game_id)
    if str_eq g.status "finished" then ready (g ∷ []) else stops not_completed

  -- One round of the loop over the slots.
  unfoldable pub hydrate_worm :
      Archive S → Config S → List Game → ℕ → Worm → List String → Setup (Worm × List String)
  hydrate_worm a c games i w versions =
      if wants_history c i w
      then elim (find_source i (profile_of c i w) games) [
        | none ↦ stops missing_history
        | some p ↦ load_rules a p.brain_version_id >>= install_same i w versions
      ]
      else ready (w, versions)

  unfoldable pub hydrate_worms :
      Archive S
      → Config S
      → List Game
      → ℕ
      → List Worm
      → List String
      → Setup (List Worm × List String)
  hydrate_worms a c games i [] versions = ready ([], versions)
  hydrate_worms a c games i (w ∷ ws) versions = hydrate_worm a c games i w versions >>= λ first.
      hydrate_worms a c games (suc i) ws first.1 >>= λ rest. ready (first.0 ∷ rest.0, rest.1)

  -- `hydrateSAME`
  unfoldable pub hydrate_same : Archive S → Config S → Match S → Setup (Match S)
  hydrate_same a c m = if not m.has_store then ready m else do
    games ← history_of a c
    slots ← hydrate_worms a c games 0 m.state.worms m.brain_versions
    ready (record m { state = record m.state { worms = slots.0 }; brain_versions = slots.1 })

  -- The match that `NewMatch` makes before it looks into the store.
  unfoldable pub fresh_match : Config S → Match S
  fresh_match c = record {
    has_store = c.has_store;
    game_id = c.game_id;
    state = c.initial;
    controllers = c.controllers;
    memory = c.memory;
    brain_versions =
        if is_empty c.brain_version_ids
        then map (λ w. c.brain_version_id) c.initial.worms
        else c.brain_version_ids;
    seed = c.seed;
    deadline = if leb_ℤ c.deadline (pos 0) then 5000000000 else pos_part c.deadline;
    clock = c.clock;
    reads = 0;
    last_action = none;
    last_slot = negsuc 0;
    decisions = 0;
    pending_deadline = 0;
  }

  abbrev pub name_local : Archive S → Match S → Match S
  name_local a m =
      if str_eq m.game_id "" then record m { game_id = a.local_name m.state m.seed } else m

  -- `CreateGame` and the first snapshot.
  unfoldable pub create_game : World S → Archive S → Match S → Setup (Match S)
  create_game e a m = do
    name ← of_found (a.create m)
    let m' = record m { game_id = name }
    elim (persist e m' [] none "active") [
      | none ↦ ready m'
      | some reason ↦ stops (store_error reason)
    ]

  -- The end of `NewMatch`; `given` is the name in the configuration.
  unfoldable pub enter_game : World S → Archive S → String → Match S → Setup (Match S)
  enter_game e a given m =
      if not m.has_store
      then ready m
      else if str_eq given ""
      then create_game e a m
      else elim (a.game given) [
        | found g ↦ ready m
        | missing ↦ create_game e a m
        | broken reason ↦ stops (store_error reason)
      ]

  -- `NewMatch`
  unfoldable pub new_match : World S → Archive S → Config S → Setup (Match S)
  new_match e a c = elim (validate_config c) [
    | some fault ↦ stops fault
    | none ↦ elim (validate c.initial) [
      | some fault ↦ stops (bad_state fault)
      | none ↦ do m ← hydrate_same a c (fresh_match c); enter_game e a c.game_id (name_local a m)
    ]
  ]
