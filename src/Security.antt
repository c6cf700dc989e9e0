-- ===== src/Security.antt =====
-- The rate limiter of server/security.ts.
pub mod RateLimiter
pub mod Window
pub mod Runs
pub mod Budgets
pub mod Spending
pub mod AccessJwt
pub mod Assertions
pub mod KeyRefresh
pub mod Examples
