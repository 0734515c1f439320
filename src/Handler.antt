-- ===== src/Handler.antt =====
-- internal/handler: the HTTP handlers and the state that they share. Each child is one part of it.
pub mod Sanitise
pub mod Http
pub mod Metrics
pub mod State
pub mod ClientIp
pub mod Admission
pub mod Tested
pub mod Download
pub mod Upload
pub mod Geoip
pub mod Results
pub mod RateLimit
pub mod Status
