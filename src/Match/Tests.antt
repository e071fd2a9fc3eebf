-- ===== src/Match/Tests.antt =====
-- The theorems on match.go at a match of one automatic worm that no store keeps.
use worms_ng.Prelude.{
  [], arith, false, is_blank, is_odd, negsuc, none, pos, refl, some, true, ℕ, ◌+ℤ◌, ◌+◌, ◌∷◌, ◌≡◌,
}
use worms_ng.Engine.Board.{in_bounds}
use worms_ng.Engine.Masks.{reciprocal_ok}
use worms_ng.Engine.Moves.WellFormed.{WellFormed}
use worms_ng.Engine.Rules.{
  check_action, check_forced, check_table, force_all, install_forced, rules_empty, validate_rules,
}
use worms_ng.Engine.Sample.{awaiting, meadow, meadow-WellFormed, solo}
use worms_ng.Engine.Setup.{
  check_id, check_owners, check_scores, check_trails, check_worm, check_worms, new_state, validate,
}
use worms_ng.Engine.Snapshot.{
  canonical, marshal_snapshot, rebuild, restore_territories, restore_trails, sort_by,
  unmarshal_snapshot,
}
use worms_ng.Engine.Types.{Worm, controller_same}
use worms_ng.Match.{
  Match, World, controller_at, fails, keep_or_restore, persist, restore_memory, stop, store_failed,
}
use worms_ng.Match.Resume.{
  Head, Persisted, Vault, apply_transition, check_events, is_next, open_snapshot, replay_events,
  restore_engine, resume_match, verify_game,
}
use worms_ng.Match.Resume.Chain.{IsVerified, resume_match-IsVerified}
use worms_ng.Match.Rollback.{FailsClean, match_calls-FailsClean}
use worms_ng.Match.Rounds.{resolve, resolve_automated, submit_human}
use worms_ng.Match.Setup.{
  Archive, Config, enter_game, find_slot, find_source, found, fresh_match, history_of, hydrate_same,
  hydrate_worm, hydrate_worms, install_same, is_source, load_rules, missing, new_match, ready,
  validate_config,
}
use worms_ng.Match.Setup.History.{Hydrates, hydrate_same-Hydrates}
use worms_ng.Match.Setup.Start.{
  advancing, resolving, run_calls, run_calls-new_match, stopping, submitting,
}
use worms_ng.Prelude.Bits.{has_bit}
use worms_ng.Protocol.{Action, action_move}

abbrev quiet : World ℕ
quiet = record {
  write = λ m events o status. none;
  numbered = λ name i. name;
  number = λ i. "1";
  mask_text = λ m. "000000";
  kind_text = λ k. "AUTO";
}

-- A match that asks a human.
abbrev waiting_match : Match ℕ
waiting_match = record {
  has_store = false;
  game_id = "g";
  state = awaiting;
  controllers = none ∷ [];
  memory = λ i. 0;
  brain_versions = [];
  seed = pos 7;
  deadline = 10;
  clock = λ n. n + 1;
  reads = 0;
  last_action = none;
  last_slot = negsuc 0;
  decisions = 0;
  pending_deadline = 0;
}

-- A store that refuses every write, and the match that it keeps.
abbrev broken : World ℕ
broken = record quiet { write = λ m events o status. some "database is locked" }

abbrev stored_match : Match ℕ
stored_match = record waiting_match { has_store = true }

abbrev east_move : Action
east_move = record { kind = action_move; direction = pos 0 }

match_calls-FailsClean_example :
    FailsClean stored_match (submit_human broken stored_match east_move)
    × FailsClean stored_match (resolve broken stored_match)
    × FailsClean stored_match (stop broken stored_match)
    × FailsClean stored_match (resolve_automated broken stored_match 0)
match_calls-FailsClean_example = match_calls-FailsClean broken stored_match east_move 0

-- The store's error reaches the caller of Stop.
stop_fails : (stop broken stored_match).1 ≡ fails (store_failed "database is locked")
unfolding stop keep_or_restore persist
stop_fails = refl

-- An archive with one finished game, in which the worm "a" played the version "a:1".
abbrev library : Archive ℕ
library = record {
  game = λ id. missing;
  finished_games = found (
      record {
        id = "old";
        status = "finished";
        participants = record { slot = pos 0; profile = "a"; brain_version_id = "a:1" } ∷ [];
      }
      ∷ []);
  version = λ id. found (record { id = id; rules = some solo.rules });
  create = λ m. found m.game_id;
  local_name = λ s seed. "local";
}

abbrev local_config : Config ℕ
local_config = record {
  has_store = false;
  game_id = "g";
  previous_game_id = "";
  profile_ids = [];
  brain_version_id = "";
  brain_version_ids = "a:0" ∷ [];
  initial = meadow;
  controllers = [];
  memory = λ i. 0;
  seed = pos 7;
  deadline = pos 10;
  clock = λ n. n + 1;
}

local_starts : new_match quiet library local_config ≡ ready (fresh_match local_config)
unfolding new_match validate_config fresh_match hydrate_same enter_game validate check_worms
    check_trails check_owners check_scores reciprocal_ok is_odd check_worm check_id in_bounds ◌+ℤ◌
    rules_empty validate_rules check_table check_action check_forced install_forced force_all
    has_bit is_blank
local_starts = refl

run_calls-new_match_example :
    WellFormed
      (run_calls quiet
        (fresh_match local_config)
        (advancing ∷ resolving ∷ submitting east_move ∷ stopping ∷ [])).state
run_calls-new_match_example =
    run_calls-new_match quiet library local_config
      (advancing ∷ resolving ∷ submitting east_move ∷ stopping ∷ []) local_starts (omega arith)
      (omega arith) meadow-WellFormed.territories_ok

-- A worm that repeats the last game.
abbrev echo : Worm
echo = record solo { controller = controller_same }

abbrev echo_match : Match ℕ
echo_match = record waiting_match {
  has_store = true;
  state = record meadow { worms = echo ∷ [] };
  brain_versions = "" ∷ [];
}

abbrev stored_config : Config ℕ
stored_config = record local_config { has_store = true; brain_version_ids = [] }

abbrev hydrated_match : Match ℕ
hydrated_match = record echo_match { brain_versions = "a:1" ∷ [] }

echo_hydrates : hydrate_same library stored_config echo_match ≡ ready hydrated_match
unfolding hydrate_same history_of hydrate_worms hydrate_worm find_source find_slot is_source
    load_rules install_same validate_rules check_table check_action check_forced install_forced
    force_all has_bit
echo_hydrates = refl

hydrate_same-Hydrates_example : Hydrates library stored_config echo_match hydrated_match
hydrate_same-Hydrates_example =
    hydrate_same-Hydrates library stored_config echo_match echo_hydrates refl

-- A stored game with a snapshot and one event behind it.
abbrev stored_runtime : Persisted ℕ
stored_runtime = record {
  engine = some (marshal_snapshot (λ x. "s") meadow);
  brain_versions = "a:0" ∷ [];
  last_action = some 2;
  last_slot = pos 0;
  decision = 4;
  pending_deadline = 0;
  memories = λ i. none;
}

abbrev stored_game : Vault ℕ
stored_game = record {
  head = λ id. found (record { id = "g"; sequence = 4; event_hash = "move" });
  chain_fault = λ id. none;
  snapshot = λ id. found (record { sequence = 3; payload = "board"; hash = "board" });
  events = λ id n. found (
      record {
        sequence = 4;
        kind = "worm_moved";
        payload = "move";
        prev_hash = "board";
        hash = "move";
      }
      ∷ []);
  hash_bytes = λ payload. payload;
  hash_event = λ n prev kind payload. payload;
  read_snapshot = λ payload. some (pos 1, some stored_runtime);
  read_transition = λ payload. none;
  digest = λ x. "s";
  hash_state = λ s. "s";
  accepts = λ controllers memories. true;
}

-- The archive in which the game is already there.
abbrev archive : Archive ℕ
archive = record library {
  game = λ id. found (record { id = id; status = "active"; participants = [] });
}

abbrev resumed_match : Match ℕ
resumed_match = record (fresh_match stored_config) {
  brain_versions = "a:0" ∷ [];
  last_action = some 2;
  last_slot = pos 0;
  decisions = 4;
}

game_resumes : resume_match stored_game quiet archive stored_config ≡ ready resumed_match
unfolding resume_match verify_game replay_events open_snapshot restore_engine unmarshal_snapshot
    rebuild marshal_snapshot canonical new_state check_events is_next apply_transition
    restore_trails restore_territories restore_memory new_match validate_config fresh_match
    hydrate_same history_of hydrate_worms hydrate_worm enter_game validate check_worms check_trails
    check_owners check_scores reciprocal_ok is_odd check_worm check_id in_bounds ◌+ℤ◌ rules_empty
    validate_rules check_table check_action check_forced install_forced force_all has_bit is_blank
    sort_by controller_at
game_resumes = refl

resume_match-IsVerified_example : (g : Head) × IsVerified stored_game stored_config g
resume_match-IsVerified_example =
    resume_match-IsVerified stored_game quiet archive stored_config game_resumes
