-- ===== src/Tournament.antt =====
-- internal/tournament/tournament.go: the configuration of a tournament, its matches and reports.
-- What the store answers, SHA-256, the formatted names and the decoded payloads are parameters.
pub mod Seats
pub mod Play
pub mod Run
pub mod HeldOut
pub mod Tests
use worms_ng.Prelude.{
  Bool, Dict, List, Option, String, [], any, eq_ℤ, if◌then◌else◌, leb_ℤ, length, ltb, none, not,
  pos, some, str_eq, true, ℕ, ℤ, ◌&&◌, ◌==◌, ◌||◌, ◌∷◌,
}
use worms_ng.Engine.Masks.{colors}
use worms_ng.Engine.Moves.WellFormed.{completed}
use worms_ng.Engine.Observe.{winners}
use worms_ng.Engine.Types.{State}
use worms_ng.Match.{Controller, Match, MatchError, World}
use worms_ng.Match.Resume.{Vault}
use worms_ng.Match.Setup.{Archive, Found, SetupError, broken, found, missing}
use worms_ng.Protocol.Trees.{size}

pub record Participant (S : Type 0) : Type 0 where
  pub id : String
  pub name : String
  pub brain_version_id : String
  pub controller : Option (Controller S)
  pub color : String

-- `Config` of the tournament.
pub record TournamentConfig (S : Type 0) : Type 0 where
  pub has_store : Bool
  pub id : String
  pub name : String
  pub state : State
  pub participants : List (Participant S)
  pub rounds : ℤ
  pub seed : ℤ
  pub deadline : ℤ
  pub clock : ℕ → ℕ
  pub max_turns : ℤ

-- `MatchReport`. EventStart, which is always 0, and the empty InspectionLinks are left out.
pub record MatchReport : Type 0 where
  pub id : String
  pub game_id : String
  pub round : ℕ
  pub seed : ℤ
  pub colors : Dict String String
  pub scores : Dict String ℤ
  pub winners : List String
  pub tie : Bool
  pub status : String
  pub turns : ℕ
  pub move_count : ℕ
  pub timeouts : ℕ
  pub errors : ℕ
  pub resigns : ℕ
  pub brain_version_ids : Dict String String
  pub event_end : ℕ
  pub replay_link : String

pub record Report : Type 0 where
  pub tournament_id : String
  pub seed : ℤ
  pub matches : List MatchReport
  pub wins : Dict String ℕ
  pub ties : ℕ
  pub completed : ℕ
  pub timeouts : ℕ
  pub errors : ℕ
  pub resigns : ℕ

pub record Tournament (S : Type 0) : Type 0 where
  pub config : TournamentConfig S
  pub id : String

-- The envelope of a payload: its version, the length of its data, and the report that they hold.
pub record Envelope : Type 0 where
  pub version : ℤ
  pub size : ℕ
  pub report : Option MatchReport

-- `store.Match`; the payload is `none` where it is no envelope.
pub record Row : Type 0 where
  pub id : String
  pub game_id : String
  pub round : ℕ
  pub status : String
  pub payload : Option Envelope

pub data TournamentError : Type 0 where
  few_participants few_worms bad_participant not_stored : TournamentError
  bad_report store_fault : String → TournamentError
  no_match : SetupError → TournamentError
  not_stopped : MatchError → TournamentError

pub data Ran (A : Type 0) : Type 0 where
  ran : A → Ran A
  halts : TournamentError → Ran A

abbrev pub ran_found : {A : Type 0} → Found A → Ran A
ran_found (found a) = ran a
ran_found missing = halts (store_fault "not found")
ran_found (broken reason) = halts (store_fault reason)

-- The stores of matches and of the tournament (`rows`, CreateTournament, GetTournament, CreateMatch
-- and the two updates of a row), the formatted names, the first eight bytes of SHA-256 of a seed and a
-- round, and a random controller with what the controllers start with.
pub record Office (S : Type 0) : Type 0 where
  pub world : World S
  pub archive : Archive S
  pub vault : Vault S
  pub rows : String → Found (List Row)
  pub create_tournament : TournamentConfig S → Found String
  pub known : String → Option String
  pub create_row : MatchReport → Found String
  pub save : MatchReport → Option String
  pub close : MatchReport → Option String
  pub sequence : Match S → Option ℕ
  pub color_name : ℕ → String
  pub game_name : String → ℕ → String
  pub digest : ℤ → ℕ → List ℕ
  pub random : ℤ → Controller S
  pub memory : ℕ → S

-- `decodeMatchReport`
unfoldable pub decode_report : Option Envelope → Option MatchReport
decode_report none = none
decode_report (some x) = if not (eq_ℤ x.version (pos 1)) || x.size == 0 then none else x.report

module _ {S : Type 0} where
  -- Whether every participant has a name of its own, after the names `seen`.
  unfoldable pub names_ok : List String → List (Participant S) → Bool
  names_ok seen [] = true
  names_ok seen (p ∷ ps) =
      not (str_eq p.id "") && not (any (str_eq p.id) seen) && names_ok (p.id ∷ seen) ps

  -- `validate`
  unfoldable pub validate_tournament : TournamentConfig S → Option TournamentError
  validate_tournament c =
      if ltb (length c.participants) 2
      then some few_participants
      else if ltb (length c.state.worms) (length c.participants)
      then some few_worms
      else if names_ok [] c.participants
      then none
      else some bad_participant

  abbrev pub settle : TournamentConfig S → TournamentConfig S
  settle c = record c {
    rounds = if leb_ℤ c.rounds (pos 0) then pos 1 else c.rounds;
    max_turns = if leb_ℤ c.max_turns (pos 0) then pos 32 else c.max_turns;
  }

  -- `NewTournament`
  unfoldable pub new_tournament : Office S → TournamentConfig S → Ran (Tournament S)
  new_tournament o c = elim (validate_tournament c) [
    | some fault ↦ halts fault
    | none ↦
        let c' = settle c in
        if c.has_store && str_eq c.id ""
        then elim (ran_found (o.create_tournament c')) [
          | ran id ↦ ran (record { config = c'; id = id })
          | halts fault ↦ halts fault
        ]
        else ran (record { config = c'; id = c.id })
  ]

  -- `ResumeTournament`
  unfoldable pub resume_tournament : Office S → TournamentConfig S → Ran (Tournament S)
  resume_tournament o c =
      if not c.has_store || str_eq c.id "" then halts not_stored else elim (o.known c.id) [
        | some reason ↦ halts (store_fault reason)
        | none ↦ new_tournament o c
      ]
