-- ===== src/StreamMerge.antt =====
-- applets/stream_merge: the metadata records, the event tags attached to them, and the gap-aware
-- clip state machine.
pub mod Events
pub mod Drain
pub mod Fsm
pub mod Loop
pub mod Main
pub mod Output
pub mod Reader
mod Tests
pub mod LoopTests
