-- ===== src/Detect.antt =====
-- internal/detect: adventure-candidate detection, a pure function of the observations.
-- `Params` holds the thresholds; `PyPort` the binary searches; each other child follows the stage of
-- its name, and `Run` composes them. The children of a stage prove what it does.
pub mod Params
pub mod PyPort
pub mod Score
pub mod Bases
pub mod Synth
pub mod Observed
pub mod Spans
pub mod Home
pub mod Match
pub mod Candidates
pub mod Run
