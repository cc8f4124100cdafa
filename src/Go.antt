-- ===== src/Go.antt =====
-- Go's dynamic values, as they stand in `interface{}`.
pub mod Value
