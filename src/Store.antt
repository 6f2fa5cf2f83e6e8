-- ===== src/Store.antt =====
-- The database as the services see it: its tables, the Prisma calls on them, and the monad of a
-- handler.
pub mod Table
pub mod Staff
pub mod Loan
pub mod Leave
pub mod Asset
pub mod Exit
pub mod Request
pub mod Payroll
pub mod Access
pub mod Db
