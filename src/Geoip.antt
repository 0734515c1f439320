-- ===== src/Geoip.antt =====
-- internal/geoip: the refresh of the geo database.
pub mod Updater
pub mod Location
