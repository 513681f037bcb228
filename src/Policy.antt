-- ===== src/Policy.antt =====
-- packages/cli/src/sync-ledger-policy.ts: which records a route may carry, the fences that retire a
-- route's obligations, the queue of obligations, and the schedule of retries.
-- The code changes the ledger in place; here each function returns the changed ledger.
pub mod Grants
pub mod Fence
pub mod Queue
pub mod Retry
pub mod Fenced
pub mod Queued
pub mod Forced
pub mod Schedule
