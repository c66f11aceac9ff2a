-- ===== src/Database.antt =====
-- The relational store behind internal/repository, as its clients see it.
pub mod Errors
pub mod Table
pub mod Order
pub mod Session
