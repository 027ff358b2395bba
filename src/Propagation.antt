-- ===== src/Propagation.antt =====
-- propagation.go
pub mod Binary
pub mod Escape
pub mod TextMap
pub mod Zipkin
