-- ===== src/Match/Adapters/Dice.antt =====
-- What the restoring of a random controller gives back.
