-- ===== src/Tests.antt =====
-- Concrete inputs: primitives, libraries and guards that run, and applications of the theorems.
mod Fixtures
mod Crypto
mod Budgets
mod Requests
mod Rows
mod Rereads
mod Risk
mod Logins
mod Launch
mod Browser
mod Scenarios
mod Threads
mod Wire
mod Histories
mod Handlers
mod Provider
