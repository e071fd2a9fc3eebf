-- ===== src/Lib.antt =====
-- Worms NG: a model of its rules engine (internal/engine), of the protocol and the sessions of its
-- external agents (internal/protocol, internal/agent), of its planner (internal/planner), of its
-- matches (internal/match) and of its tournaments (internal/tournament), with the theorems that make
-- them correct.
--
-- Worms move between the points of a lattice with six directions and leave trails. A point whose six
-- spokes are all claimed is a completed territory, which counts for the worm that closed it. A worm
-- acts by a table that remembers one action for each mask of taken spokes; an unknown mask stalls
-- the round until the player answers, and the answer is remembered. The planner proposes such an
-- answer by trial steps of the engine. An external agent is asked through a session, which publishes
-- one observation at a time and accepts one of its legal actions before a deadline. A match runs the
-- engine with a controller for each worm, and undoes what the store refuses.
-- A tournament plays a match for each of its rounds and sums their reports.
--
-- Prelude (with Tests, Lists, Int, Keys, Texts and Bits) holds what the parts share: the Boolean
-- tests, list indexing over the native numbers, a ℤ for Go's int, maps whose keys have a Boolean
-- equality, strings, and the bits of a mask. Engine is the model of internal/engine:
--   * Engine.Types: the types of internal/engine/engine.go (Direction, Point, Edge, Action, Worm,
--     Territory, Event, Decision, State) and the errors;
--   * Engine.Board: inBounds, wrap, Neighbor, Edge and points of internal/engine/engine.go, AllEdges
--     and AdjacentTerritories of internal/engine/geometry.go; Board.Wrap is arithmetic modulo the
--     size, Board.Torus and Board.Distinct the neighbours, Board.Edges the canonical edges;
--   * Engine.Masks: mask, Territory, wormIndex and hasWorm of internal/engine/engine.go, InsertTrail
--     and ReciprocalOK of internal/engine/geometry.go; Masks.Laws says what a bit of a mask means;
--   * Engine.Moves: LegalMoves, emit, Step and recolorCapture of internal/engine/engine.go.
--     Moves.WellFormed is the invariant, Moves.Recolor (with Capture) and Moves.Preserve its
--     preservation, Moves.Legal and Moves.StepLaws the branches, Moves.Effect what a move changes,
--     Moves.Owners when a point has an owner,
--     Moves.Torus the classic board;
--   * Engine.Rules: the tables of internal/engine/controller.go (fillWild, ValidateRules,
--     NormalizeRules, ConfigureWorm, Lookup); Rules.Valid and Rules.Setup are their laws;
--   * Engine.Auto: chooseAuto of internal/engine/controller.go; Auto.Choice and Auto.Best are its
--     laws;
--   * Engine.Turns: AdvanceRound, Submit and advanceAfterSubmit of internal/engine/controller.go;
--     Turns.Invariant carries the invariant through them, Turns.Progress and Turns.Success follow a
--     round on the classic torus;
--   * Engine.Setup: New, NewClassic, NewToroidal, ValidateID and Validate of internal/engine/engine.go
--     and the checked constructors of internal/engine/geometry.go; Setup.Valid and Setup.Fresh relate
--     them to the invariant;
--   * Engine.Generate: GenerateBoard of internal/engine/board.go, and Generate.Laws;
--   * Engine.Observe: Observe, the historical encodings and Winners of internal/engine/engine.go, and
--     Observe.Laws and Observe.Packing;
--   * Engine.Replay: Replay of internal/engine/engine.go;
--   * Engine.Snapshot: canonical, MarshalSnapshot and UnmarshalSnapshot of internal/engine/engine.go;
--   * Engine.Sample and Engine.Tests: a small board on which the theorems are applied.
-- Protocol is the model of internal/protocol/protocol.go, which does not use the engine:
--   * Protocol: the values and their Validate; Protocol.Valid describes what is accepted;
--   * Protocol.Json: scanJSONValue over the tokens of a decoder, and the strict decoding around
--     encoding/json; Protocol.Scan bounds its fuel, Protocol.Trees and Trees.Distinct relate it to
--     JSON values;
--   * Protocol.Actions: the JSON of an action; Protocol.Sample and Protocol.Tests: examples.
-- Agent is the model of internal/agent, over the values of Protocol:
--   * Agent: the state of the session manager of internal/agent/session.go with its log, and
--     Agent.Sessions its operations; Agent.Sound is the invariant, Agent.Preserve its preservation,
--     Agent.Reach the runs, Agent.Frame and Agent.Closed what an operation leaves alone,
--     Agent.Answers, Agent.Repeat and Agent.Requests what Submit and Request answer;
--   * Agent.Policies: internal/agent/policy.go; Agent.Tests: examples.
-- Planner is the model of internal/planner/planner.go, over the operations of Engine:
--   * Planner: the configuration and the results, and Planner.Configs their laws;
--   * Planner.Scores: score, future and borderScore, with Planner.Bounds; Planner.Local: the local
--     view, with Planner.View; Planner.Plans: Plan, Teach and Lookup, with Planner.Choice,
--     Planner.Teaching and Planner.Taught; Planner.Tests: examples.
-- Match is the model of internal/match, over the operations of Engine, the requests of Protocol and the
-- sessions and policies of Agent:
--   * Match: the state of a match with its runtime and its rollback, and Stop; Match.Same: the SAME
--     controller; Match.Play: requests, terminal outcomes and accepted moves; Match.Rounds: Advance,
--     resolveAutomatedLocked, Resolve and Submit;
--   * Match.Alike and Match.Invariant (with Calls) carry the engine's invariant through them,
--     Match.Rollback says what a failed call leaves;
--   * Match.Setup: NewMatch with hydrateSAME; Match.Setup.Start follows a match from there through its
--     calls, Match.Setup.Sources describes where hydrateSAME looks, Match.Setup.History says
--     what it installs;
--   * Match.Resume: ResumeMatch, and Match.Resume.Chain; Match.Tests: examples;
--   * Match.Adapters: the controllers of internal/match/adapters.go, and Match.Adapters.Restore the
--     restoring of their memory; Match.Adapters.Scripts and Match.Adapters.Dice are the laws, with the
--     examples of Match.Adapters.Tests.
-- Tournament is the model of internal/tournament/tournament.go, over the operations of Match:
--   * Tournament: the configuration, the rows and reports, NewTournament and ResumeTournament;
--   * Tournament.Seats: the worms, colours and controllers of a round, with Tournament.Seats.Colors;
--   * Tournament.Play: runRound, with Tournament.Play.Ends; Tournament.Run: Run and RunTournament, with
--     Tournament.Run.Totals and Tournament.Run.Rounds;
--   * Tournament.HeldOut: verifyFrozenVersions and the configuration of a case, Tournament.HeldOut.Cases:
--     EvaluateHeldOut, with Tournament.HeldOut.Frozen and Tournament.HeldOut.Passes;
--     Tournament.Tests: examples.
--
-- A method that changes `*State` is a function to the new state. The deferred rollback of
-- AdvanceRound and Submit is the `saved` state of `conclude`. Go's int is an unbounded ℤ; uint64 and
-- uint32 wrap as written; uint8 masks and directions are numbers, and a `[64]Action` is a function.
-- Maps are association lists with at most one entry for a key where they are built by insertion. An
-- index out of range is the error `panic`. Errors carry their reason and not their wording. Where
-- Go ranges over a map, the model takes the order of the list. The loops are structural, over a list
-- or a counted range; the lookahead goes down with its depth, which is at most 8. The scan of JSON
-- tokens runs on fuel, twice the number of tokens and one, and the turns of a tournament's match on
-- fuel, one more than their cap; both are enough.
--
-- The sessions are locked for each operation, so an operation is one step of the manager; Request is
-- taken without another operation between its parts. The clock is a function of the number of its
-- readings, an instant is a number with 0 for the zero time, and an error's text is a parameter, as
-- are SHA-256, JSON values, what the store answers to a write, tokens of credentials, and what a
-- policy, a controller or a random source returns. The memory of a controller is a value that a
-- rollback gives back.
--
-- Not modelled: the JSON of snapshots, for which the record stands; String methods and the wording of
-- errors; RawMaskBits; the records of the health endpoint; the adapter of a language model
-- (internal/agent/openai.go), internal/planner/experiment.go and internal/protocol/evolution.go;
-- ContinueBrainVersion, RulesHash, the SQL and the payloads of internal/match/match.go; the JSON of a
-- controller's state, the names and provenance and the nil checks of internal/match/adapters.go;
-- FrozenRuleHash of internal/tournament/tournament.go; the packages around these (store, server,
-- sharing, extension, experiment, debug, ui); and values of Topology and RulesMode that have no name.
pub mod Agent
pub mod Engine
pub mod Match
pub mod Planner
pub mod Prelude
pub mod Protocol
pub mod Tournament
