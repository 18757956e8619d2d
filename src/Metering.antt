-- ===== src/Metering.antt =====
-- Usage metering, rating and prepaid billing: template/src/app/metering.
pub mod RateCards
pub mod Rating
pub mod Models
pub mod Usage
pub mod Invoices
pub mod Charge
pub mod Ledger
pub mod Wallet
pub mod Router
mod Tests
