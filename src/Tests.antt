-- ===== src/Tests.antt =====
-- The theorems at concrete inputs.
mod Circuit
mod Client
mod Cache
mod Settings
mod Requests
mod Generations
mod Host
mod Filters
mod Payloads
mod Instructions
mod Adapters
