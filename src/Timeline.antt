-- ===== src/Timeline.antt =====
-- internal/timeline: the parser of Timeline exports.
pub mod Stream
pub mod Codec
pub mod Segments
pub mod Parse
