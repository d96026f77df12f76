-- ===== src/Lifecycle.antt =====
-- The lifecycle of study material versions and quizzes (src/api/utils/content_lifecycle, and the
-- publish operations of the study material and quiz repositories).
pub mod Model
pub mod Transitions
pub mod Visibility
pub mod Store
pub mod Layers
pub mod Publish
pub mod Delete
mod Tests
