-- ===== src/Search.antt =====
-- src/common/filter: the search that the customers and the orders share.
pub mod Column
pub mod Value
pub mod Criteria
pub mod Query
pub mod Service
