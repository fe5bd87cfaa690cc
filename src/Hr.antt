-- ===== src/Hr.antt =====
-- packages/shared/src/hr-accounting.ts: attendance, pay and the profit and loss account.
pub mod Attendance
pub mod Month
pub mod Payslip
pub mod Accounts
