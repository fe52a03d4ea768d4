-- ===== src/Icaltime.antt =====
-- rfc/internal/icaltime and rfc/internal/ical/time.go: DATE, DATE-TIME and DURATION.
pub mod Decimal
pub mod Date
pub mod Duration
