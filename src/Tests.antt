-- ===== src/Tests.antt =====
-- Concrete inputs at which the theorems apply, a module for each part.
mod Sets
mod Stores
mod Collections
mod Values
mod Pipelines
