-- ===== src/Abi.antt =====
-- internal/abi: the buffers that the plugin hands to the host, and the runtime behind the calls.
pub mod Buffer
pub mod Runtime
pub mod Lifecycle
pub mod History
pub mod Dispatch
pub mod Shutdown
