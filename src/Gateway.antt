-- ===== src/Gateway.antt =====
-- internal/core/gateway: whether the gateway accepts protected requests.
pub mod Availability
pub mod Schedules
