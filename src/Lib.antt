-- ===== src/Lib.antt =====
-- A verification library of the collaborative whiteboard's server.
--
-- The server keeps one account database (users, sessions, boards, memberships, invitations, audit
-- events, assets) and, for each board, a history database (immutable events, checkpoints, and the
-- fragments of edits that wait to be merged into events). `AuthService` runs every change of the
-- first in a transaction; `BoardHistoryStore` does the same for the second, and rebuilds a board as it
-- was by replaying events over a checkpoint.
--
-- Exec: a method that changes an object and may throw is a function from the state to a result and a
--   state (`Exec`); `transaction` undoes what a throwing operation wrote (server/auth-db.ts
--   `transaction`, server/history.ts `atomic`). Exec.Keeps, Exec.Atomic and Exec.Inversion reason about
--   such actions, one rule for each way to build one.
-- Accounts: server/auth-db.ts and server/auth.ts. Types and Database, Ledger (rows, statements with the
--   schema's constraints), Input (checks on what a caller sends), Guards (the private methods),
--   Sessions, Boards, Members, Invitations (the public operations, named as in the source with
--   underscores), Calls (every operation that changes state, and reachability by them). Evolution,
--   SingleUse, Revocation, AssetCap and Ownership are about them; Examples applies them.
-- History: server/history.ts, server/history-storage.ts and shared/history.ts. Types, Changes
--   (validation, merge, differences of snapshots), Replay (`applyHistoryEvents`), Rows, Store,
--   Reconstruct, Restore, Pages (`BoardHistoryStore`), Recorder (`BoardHistoryRecorder`), Kinds
--   (`eventTypeForChanges`). States, Merge, Between, Timeline, Steps (every operation, and reachability
--   by them), Flush, Staging, Appends, Past and Cadence are about them; Examples applies them.
-- Security: server/security.ts, server/access-jwt.ts and `spend` of server/app.ts. RateLimiter
--   (`SlidingWindowRateLimiter`), with Window and Runs about it; Budgets (`spend`), with Spending about
--   it; AccessJwt (`createAccessVerifier`: the key cache and `verify`), with Assertions and KeyRefresh
--   about it; Examples applies them.
-- Tokens: server/token-store.mjs and server/tokens.ts. Types, Platform (checks on names, times and
--   labels), Files (lock, backup, atomic replacement, `mutateStore`), Records (what each mutator does to
--   the parsed object), Clients (the operations), Grant (`grantNewBoard`), Reader (`loadStore`,
--   `authorizeApiToken`, `authenticateBoardCreator`), Calls (every operation that changes the file, and
--   reachability by them). Moves and WellFormed carry what an operation keeps; Readable, Backups,
--   Locking, Saved, Revoked, Replaced, Created and Refused are about them; Examples applies them.
--
-- Conventions: a table is the list of its rows in order of insertion; a primary key or unique column is
-- a check of the insert. Times are numbers of milliseconds. The clock, the UUIDs and the random bytes of
-- a call are its arguments. Scrypt, SHA-256, Unicode normalisation, UTF-16 lengths and JSON are the
-- parameter `Platform`; tldraw's records, `isDeepStrictEqual` and `JSON.stringify` are the parameter
-- `Schema`, and `Decides` is what Node.js documents of the comparison. A column of JSON text holds the
-- value itself. `login` waits for scrypt between its check and its commit, so it is two operations with
-- any others between them. The loops are structural recursions on lists, so no fuel is needed.
--
-- In Tokens every call of the file system fails or not as the record `Faults` of an operation says, and a
-- write may leave a part of the text. A text that `serialise` made is kept as the object it was made of,
-- since JSON.parse gives that object back (`FileText`). A record of the file has texts for its name and
-- its hash; its other fields may hold any value but a list with an entry that is not a text. A change of
-- the file is one step: the lock keeps others out, and a reader sees the file before or after the rename.
--
-- Not modelled: opening and migrating the database files, errors of SQLite other than those of the
-- schema's constraints, the retention pass, the rooms, HTTP routes, the layout core, the client and
-- the worker. In the token file, a list in a field of a record with an entry that is not a text.
pub mod Prelude
pub mod Exec
pub mod Accounts
pub mod History
pub mod Security
pub mod Tokens
