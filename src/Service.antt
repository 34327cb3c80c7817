-- ===== src/Service.antt =====
-- crypto/src/service.rs. What a handler changes is `State`: the limiter, the provider's own state,
-- and the texts written to stdout and stderr. The clock's reading is an argument of each call. A
-- handler returns a reply or a status, or panics where the source calls `expect` on an absent value.
pub mod Guard
pub mod Handlers
pub mod Serve
pub mod Begins
pub mod Gate
pub mod Audit
pub mod Record
pub mod Budget
pub mod Drain
pub mod Oracle
pub mod Journal
pub mod Threads
pub mod Runs
pub mod Alone
pub mod Answers
pub mod Guarded
pub mod Vault
pub mod Reread
pub mod Throttled
pub mod Truthful
pub mod Witnessed
pub mod Rows
pub mod Progress
pub mod Forge
