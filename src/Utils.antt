-- ===== src/Utils.antt =====
-- The text helpers of include/http_utils.hpp.
mod Tests
pub mod Text
pub mod Url
pub mod Query
