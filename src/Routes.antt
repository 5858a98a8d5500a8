-- ===== src/Routes.antt =====
-- src/infrastructure/api/routes, one module per file.
pub mod Keys
pub mod Orders
pub mod Users
pub mod Auth
pub mod Menu
