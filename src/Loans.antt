-- ===== src/Loans.antt =====
-- The loans module: the amortization engine and the service (src/modules/loans).
pub mod Amortization
pub mod Service
