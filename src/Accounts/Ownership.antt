-- ===== src/Accounts/Ownership.antt =====
-- Owners and memberships of boards (server/auth-db.ts).
pub mod Rows
pub mod Statements
