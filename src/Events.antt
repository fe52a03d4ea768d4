-- ===== src/Events.antt =====
-- events: webhooks, and the deliveries of what changed to their endpoints.
pub mod Sealing
pub mod Signing
pub mod Delivery
pub mod Feed
