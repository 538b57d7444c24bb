-- ===== src/Orders.antt =====
-- src/seven_lens/execution/orders.py: the order lifecycle, the broker's statuses, money, the price
-- collar, order intents, broker mirrors and fills.
pub mod Status
pub mod BrokerStatus
pub mod Money
pub mod Collar
pub mod Mirror
pub mod Intent
