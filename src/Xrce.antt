-- ===== src/Xrce.antt =====
-- The XRCE types of core/serialization/xrce_types.c and their coding by Micro-CDR.
pub mod Cdr
pub mod Basic
pub mod Locator
pub mod Object
pub mod Entity
pub mod Binary
pub mod Endpoint
pub mod Request
pub mod Sample
pub mod Payload
pub mod Data
pub mod Control
pub mod Identity
pub mod RoundTrip
mod Tests
