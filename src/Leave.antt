-- ===== src/Leave.antt =====
-- Leave: balances and applications (src/modules/leave).
pub mod Balance
pub mod Applications
