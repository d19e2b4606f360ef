-- ===== src/Cache.antt =====
-- cache.go: the built-in LRU, and which calls are cached, for how long and under which key.
pub mod Lru
pub mod Keys
