-- ===== src/Stdlib.antt =====
-- utils/stdlib: the data structures that the caches are built from.
pub mod Lru
pub mod Sketch
pub mod TinyLfu
pub mod BitSet
pub mod Bloom
pub mod LinkedList
pub mod Stack
mod Tests
