-- ===== src/Cron.antt =====
-- src/cron_scheduler.cpp: cron expressions, with their text and their next time, and the scheduler.
pub mod Text
pub mod Field
pub mod Expression
pub mod Next
pub mod Scheduler
mod Examples
