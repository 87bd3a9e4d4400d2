-- ===== src/LockerAndInvoker/Call.antt =====
-- One run of a lockvoker by an io_service: `LockerAndInvoker::operator()`.
pub mod Tracing
pub mod Running
pub mod Outcomes
