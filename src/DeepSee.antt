-- ===== src/DeepSee.antt =====
-- The DeepSee connector, app/connectors/deepsee/.
pub mod Models
pub mod Decimal
pub mod Auth
pub mod Client
pub mod Mock
pub mod Sync
pub mod Providers
