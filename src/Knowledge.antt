-- ===== src/Knowledge.antt =====
-- knowledge/knowledge.go: indexing, searching and answering over the store and the providers.
pub mod Postgres
pub mod Open
pub mod Index
pub mod Ask
pub mod Pending
pub mod Whole
pub mod Settled
pub mod Keys
pub mod Cites
