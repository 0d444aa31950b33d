-- ===== src/Customer.antt =====
-- customer/: the entity, the requests, and the service.
pub mod Entity
pub mod Request
pub mod Lock
pub mod Service
pub mod Controller
pub mod Search
