-- ===== src/Brokerage.antt =====
-- Orders and their life (src/modules/brokerage/).
pub mod OrderState
pub mod OrderLedger
pub mod TradingDays
pub mod Settlement
pub mod Csv
pub mod Batches
pub mod Orders
