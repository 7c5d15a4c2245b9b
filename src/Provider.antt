-- ===== src/Provider.antt =====
-- The provider's objects behind the calls of CNG (cmd/ksp).
pub mod Status
pub mod Registry
pub mod Log
pub mod Key
pub mod Open
pub mod Served
pub mod Table
pub mod Property
pub mod Bridge
mod Fixture
mod Tests
