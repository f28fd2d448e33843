-- ===== src/Rlt.antt =====
-- The lookup tables of internal/adapter/rlt/rlt.go. A table is a list of `m` indices into the list of
-- available backends. `none` is a run-time panic or a loop that does not end.
pub mod Simple
pub mod NaiveFib
pub mod Reverse
pub mod Robust
mod Tests
