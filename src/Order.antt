-- ===== src/Order.antt =====
-- order/: the status machine, the entities, the requests, and the service.
pub mod Status
pub mod Entity
pub mod Request
pub mod Event
pub mod Guards
pub mod Service
pub mod Controller
pub mod Search
