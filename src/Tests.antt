-- ===== src/Tests.antt =====
-- The theorems at concrete inputs, by component.
mod Fixtures
mod Configs
mod Tested
mod Rows
mod Stores
mod Limits
mod Clients
mod Routing
mod Lives
mod Refresh
mod Opens
mod Logs
