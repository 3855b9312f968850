-- ===== src/Ledger.antt =====
-- The double-entry ledger (src/modules/ledger/): ledger.types.ts and ledger.service.ts.
pub mod Types
pub mod Store
pub mod Posting
pub mod Reversing
pub mod Retry
pub mod Report
pub mod Sums
pub mod Resolving
pub mod Effect
pub mod Validation
pub mod Invariant
pub mod Soundness
pub mod Audit
pub mod Calls
pub mod Reversal
pub mod Repeated
pub mod History
mod Tests
