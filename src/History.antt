-- ===== src/History.antt =====
-- The board history (server/history.ts, server/history-storage.ts, shared/history.ts).
pub mod Types
pub mod Changes
pub mod Replay
pub mod States
pub mod Merge
pub mod Between
pub mod Kinds
pub mod Rows
pub mod Store
pub mod Reconstruct
pub mod Restore
pub mod Appends
pub mod Past
pub mod Pages
pub mod Recorder
pub mod Cadence
pub mod Steps
pub mod Staging
pub mod Timeline
pub mod Flush
pub mod Examples
