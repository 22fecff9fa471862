-- ===== src/Saver.antt =====
-- internal/saver: the bounded result cache, the configuration generations and the pipeline.
pub mod Dedupe
pub mod Recording
pub mod Service
pub mod Shape
pub mod Transition
pub mod Key
pub mod Pipeline
pub mod Served
