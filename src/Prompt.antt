-- ===== src/Prompt.antt =====
-- internal/prompt: the instructions that are added to a payload.
pub mod Faces
pub mod Shapes
pub mod Insert
pub mod Inject
pub mod Marked
pub mod Added
pub mod Targets
pub mod Idempotent
pub mod Composed
pub mod Known
