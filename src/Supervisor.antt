-- ===== src/Supervisor.antt =====
-- src/process_supervisor.cpp: which children the supervisor starts again, and when. A time is the
-- count of nanoseconds of the steady clock; the readings that one call makes are taken as one.
mod Process
mod Calls
mod Exits
mod System
pub mod Delay
pub mod Limits
pub mod Runs
pub mod Passed
pub mod Stopped
pub mod Follows
pub mod Made
mod Examples
