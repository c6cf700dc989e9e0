-- ===== src/Accounts.antt =====
-- server/auth-db.ts and server/auth.ts: the central account database and the service over it.
pub mod Types
pub mod Database
pub mod Ledger
pub mod Input
pub mod Guards
pub mod Sessions
pub mod Boards
pub mod Members
pub mod Invitations
pub mod Evolution
pub mod Calls
pub mod SingleUse
pub mod Revocation
pub mod Ownership
pub mod AssetCap
pub mod Examples
