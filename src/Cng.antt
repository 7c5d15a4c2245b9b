-- ===== src/Cng.antt =====
-- The translation between Windows CNG and Infisical (internal/cng).
pub mod Algorithm
pub mod Asn1
pub mod Ecdsa
pub mod PubKey
mod Tests
