-- ===== src/Payment.antt =====
-- app/domain/payment/service.py on the rows that it reads and writes.
pub mod Rows
pub mod Service
pub mod Assign
pub mod Extend
pub mod Access
pub mod Catalog
pub mod Listed
pub mod Deposits
