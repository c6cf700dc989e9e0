-- ===== src/Tokens.antt =====
-- Machine tokens: the token file (server/token-store.mjs), its reader (server/tokens.ts) and the
-- creation of boards by machines (server/agent-boards.ts).
pub mod Types
pub mod Platform
pub mod Files
pub mod Records
pub mod Clients
pub mod Reader
pub mod Grant
pub mod Moves
pub mod WellFormed
pub mod Calls
pub mod Readable
pub mod Backups
pub mod Locking
pub mod Saved
pub mod Revoked
pub mod Created
pub mod Refused
pub mod Replaced
mod Examples
