-- ===== src/Tests.antt =====
-- Concrete inputs, on which the theorems are applied.
pub mod Memory
mod Recoveries
mod Policies
mod Schedules
mod Locations
mod Times
mod Edits
mod Answers
mod Retained
mod Bins
