-- ===== src/Http.antt =====
-- src/common/http: what stands before the routes, as far as it is modelled.
pub mod RateLimit
pub mod RequestId
