-- ===== src/Notification.antt =====
-- src/notification: what sends an e-mail for an event.
pub mod RecentMessageIds
pub mod Email
pub mod Consumer
pub mod Publisher
pub mod Connection
