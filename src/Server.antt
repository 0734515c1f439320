-- ===== src/Server.antt =====
-- main.go: the parts of the server around the handlers.
pub mod Logging
pub mod Lifecycle
pub mod Startup
pub mod Shutdown
pub mod Routes
pub mod Chain
pub mod Usage
pub mod Pages
