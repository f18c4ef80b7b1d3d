-- ===== src/Reporting.antt =====
-- Reports (apps/api/src/reporting/reporting.service.ts).
pub mod Daily
pub mod Sums
pub mod Agreement
