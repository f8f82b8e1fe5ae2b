-- ===== src/Labels.antt =====
-- Labels (transactions/mtl/top.hpp, transactions/mtl/label_utilities.hpp, transactions/pgsql/SQLLevels.hpp).
pub mod Order
pub mod MinMax
pub mod Term
pub mod Meaning
pub mod Replace
pub mod Pgsql
pub mod Examples
