-- ===== src/Nebraska.antt =====
-- nebraska/nebraska.py, the mock Omaha server.
pub mod Xml
pub mod Request
pub mod AppIndex
pub mod Properties
pub mod Response
pub mod Server
pub mod Tests
