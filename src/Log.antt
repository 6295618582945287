-- ===== src/Log.antt =====
-- src/log.rs and src/log: the segmented log.
pub mod Io
pub mod Store
pub mod Index
pub mod Segment
pub mod Segmented
pub mod Examples
pub mod Tests
