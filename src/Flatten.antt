-- ===== src/Flatten.antt =====
-- The parsed trees and their flattening (transactions/mtl/AST_parse.hpp,
-- transactions/mtl/flatten_expressions.hpp).
pub mod Tree
pub mod RemoveLayer
pub mod FlattenExprs
pub mod DesugarWhile
pub mod Hoisting
pub mod Flat
pub mod Room
pub mod Meaning
pub mod Examples
