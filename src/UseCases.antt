-- ===== src/UseCases.antt =====
-- src/use_cases: the application's logic, against the interfaces of Repositories.antt.
pub mod CreateOrder
pub mod UpdateOrderStatus
pub mod Queries
pub mod Users
