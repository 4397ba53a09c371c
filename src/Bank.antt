-- ===== src/Bank.antt =====
-- Reviewed bank statements: server/core/bank-statement-domain.ts and shared/bank-statements.ts.
pub mod Decimal
pub mod Types
pub mod Date
pub mod Identity
pub mod Amounts
pub mod Check
pub mod Statement
mod Examples
