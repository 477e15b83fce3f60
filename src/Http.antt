-- ===== src/Http.antt =====
-- The HTTP data of include/http_status.hpp and include/http_structs.hpp.
pub mod Status
pub mod StatusLaws
pub mod Words
pub mod Headers
pub mod Message
pub mod Builder
pub mod Announced
mod Tests
