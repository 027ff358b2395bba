-- ===== src/Tests.antt =====
-- Inputs on which the theorems are tried.
pub mod Contexts
pub mod Headers
pub mod Sampling
pub mod Custom
pub mod Spans
pub mod Sending
pub mod Conversions
pub mod Endpoints
pub mod Configs
