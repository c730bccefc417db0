-- ===== src/Pool.antt =====
-- The pool package: the sequential life of a Worker, and its goroutines.
pub mod Worker
pub mod Run
