-- ===== src/ContentLine.antt =====
-- rfc/internal/contentline: the content-line syntax that vCard and iCalendar share.
pub mod Text
pub mod Escape
pub mod Fold
pub mod Line
