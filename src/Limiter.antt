-- ===== src/Limiter.antt =====
-- src/rate_limiter.cpp: the two rate limiters. A time is the count of nanoseconds of the steady
-- clock, and each reading of the clock is an argument of the operation that makes it.
pub mod Window
pub mod Bucket
