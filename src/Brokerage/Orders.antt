-- ===== src/Brokerage/Orders.antt =====
-- Orders of users: src/modules/brokerage/orders.service.ts. Placing has `quote` and `placeOrder`,
-- Changing `cancel` and the review of an order, Plans the recurring plans.
pub mod Placing
pub mod Changing
pub mod Plans
pub mod CancelOnce
mod Tests
