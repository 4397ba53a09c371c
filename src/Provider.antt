-- ===== src/Provider.antt =====
-- The rules for payments and spreadsheets of server/integrations/provider-policy.ts.
pub mod Stripe
pub mod Config
pub mod Sheets
pub mod Mail
pub mod Portal
mod Examples
