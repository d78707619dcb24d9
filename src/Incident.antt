-- ===== src/Incident.antt =====
-- Incidents and who hears of them, back/internal/incident.
pub mod Seats
pub mod Store
pub mod Notify
pub mod Lifecycle
