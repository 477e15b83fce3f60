-- ===== src/Router.antt =====
-- `Router` of include/router.hpp and src/router.cpp: its routes, its static files and `route`.
pub mod Outside
pub mod Pages
pub mod Params
pub mod Responses
pub mod Static
pub mod Routes
pub mod Dispatch
mod Tests
