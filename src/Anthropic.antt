-- ===== src/Anthropic.antt =====
-- internal/protocol/anthropic: the translation of a Responses stream into a Claude stream.
pub mod Exec
pub mod Frames
pub mod Stream
pub mod Process
pub mod Tracks
pub mod Live
pub mod Blocks
pub mod Writes
pub mod Closing
pub mod Ending
pub mod Cases
pub mod Follow
pub mod Tests
