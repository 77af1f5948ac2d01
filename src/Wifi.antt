-- ===== src/Wifi.antt =====
-- core/internal/wifi: which access point a wireless account joins, and whether it is joined.
pub mod Security
pub mod Select
