-- ===== src/Routing.antt =====
-- mux/App.hpp, mux/Route.hpp and mux/Router.hpp.
pub mod App
pub mod Router
mod Tests
