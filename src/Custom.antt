-- ===== src/Custom.antt =====
-- The samplers of the directory x, which are built from other samplers or from rules on tags.
pub mod Priority
pub mod TagMatching
