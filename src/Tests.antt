-- ===== src/Tests.antt =====
-- Concrete inputs for the theorems of the development.
mod Data
mod Opened
mod Records
mod Rules
mod Runs
mod Peers
mod Loops
mod Deletions
mod Deliveries
