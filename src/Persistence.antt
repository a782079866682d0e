-- ===== src/Persistence.antt =====
-- sw/persistence: the subscriber database.
pub mod Profile
pub mod Db
pub mod Json
pub mod Store
pub mod Tests
