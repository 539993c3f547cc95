-- ===== src/Wallet.antt =====
-- The wallet import of app/services/wallet_import.py.
pub mod Fill
pub mod Import
mod Tests
