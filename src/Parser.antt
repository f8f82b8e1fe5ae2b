-- ===== src/Parser.antt =====
-- The parser (transactions/mtl/new-parsing).
pub mod Allocator
pub mod AllocatorLaws
pub mod Objects
pub mod ObjectLaws
pub mod Examples
