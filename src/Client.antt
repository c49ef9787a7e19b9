-- ===== src/Client.antt =====
-- game/client.py and game/registry.py: the HTTP client of the game.
pub mod Versions
pub mod Registry
pub mod Responses
pub mod Limiter
pub mod Requests
mod Tests
