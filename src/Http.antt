-- ===== src/Http.antt =====
-- The `muxpp` HTTP classes of mux/.
pub mod Status
pub mod Message
pub mod Header
pub mod Helpers
pub mod Stream
pub mod Request
pub mod Response
pub mod Page
