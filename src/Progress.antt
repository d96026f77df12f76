-- ===== src/Progress.antt =====
-- Trainee progress: completion rules, tree shape and counts, durable unlocks, and bulk resets
-- (src/api/utils/trainee_progress_utils and the repositories that it calls).
pub mod Completion
pub mod Tree
pub mod Store
pub mod Unlocking
pub mod Resets
pub mod Writes
pub mod Rollup
pub mod Service
pub mod Written
pub mod Submitted
mod Samples
mod Tests
mod UnlockTests
mod WriteTests
