-- ===== src/Journey.antt =====
-- internal/journey: one adventure's observations as an ordered list of legs, each observed or a gap.
-- `Types` holds the data; `Select`, `Teleports`, `Thin`, `Legs` and `Stops` are the stages that
-- `Assemble` composes; `Place`, `Modes` and `Summary` read the assembled journey.
pub mod Types
pub mod Select
pub mod Teleports
pub mod Thin
pub mod Legs
pub mod Stops
pub mod Assemble
pub mod Place
pub mod Modes
pub mod Summary
