-- ===== src/Kyc.antt =====
-- Identity files and the accounts they open at a broker: src/modules/kyc/.
pub mod BrokerAccounts
pub mod Cases
pub mod Opening
pub mod Deciding
pub mod Submitting
pub mod Automatic
mod Tests
