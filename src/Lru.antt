-- ===== src/Lru.antt =====
-- lru_cache01: a string-keyed LRU cache, a chained hash table with an age stamp on every item.
pub mod Hash
pub mod Cache
pub mod Keys
pub mod Links
pub mod Unlink
pub mod Find
pub mod Evict
pub mod Chains
pub mod Invariant
pub mod Victim
pub mod Walks
pub mod Touch
pub mod Update
pub mod Insert
pub mod Room
pub mod Replace
pub mod Full
pub mod Run
pub mod OneSlot
pub mod Dump
mod Tests
pub mod Delete
