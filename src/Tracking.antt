-- ===== src/Tracking.antt =====
-- The insertion of tracking into a transaction (transactions/mtl/insert_tracking.hpp and
-- transactions/mtl/writes_remote.hpp).
pub mod Names
pub mod WritesRemote
pub mod Insert
pub mod InsertLaws
pub mod Choice
pub mod ChoiceLaws
pub mod Examples
