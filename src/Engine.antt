-- ===== src/Engine.antt =====
-- The rules engine: Types holds the records, Board the geometry, Masks the occupancy of a point,
-- Moves the legal moves and Step, Rules the remembered tables and the controllers, Auto the greedy
-- choice, Turns the rounds, Setup and Generate the first states, Observe what is told of a state,
-- Replay the events played again, Snapshot what is stored of a state, Tests a small board.
pub mod Types
pub mod Board
pub mod Masks
pub mod Moves
pub mod Rules
pub mod Auto
pub mod Setup
pub mod Generate
pub mod Observe
pub mod Replay
pub mod Snapshot
pub mod Turns
pub mod Sample
pub mod Tests
