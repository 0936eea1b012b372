-- ===== src/Tiedb.antt =====
-- tiedb: the triple store.
pub mod AssociationSet
pub mod LockedTree
pub mod Triples
pub mod TripleCache
pub mod Slots
pub mod Records
pub mod Collection
pub mod Intern
pub mod Writer
pub mod Assoc
pub mod Resolve
pub mod Query
pub mod Replace
pub mod Apply
pub mod MkDir
