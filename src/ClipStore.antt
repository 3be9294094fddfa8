-- ===== src/ClipStore.antt =====
-- applets/clip_store: the plain-text clip index.
pub mod Row
pub mod Index
pub mod Format
pub mod Load
pub mod Compact
pub mod Main
mod Tests
pub mod FileTests
pub mod MainTests
