-- ===== src/Collections.antt =====
-- The ordered collections of Rust's standard library.
pub mod BTreeSet
pub mod BTreeMap
pub mod BinarySearch
