-- ===== src/Calendar.antt =====
-- include/event_hub/calendar_scheduler.hpp and include/event_hub/calendar_scheduler/. TimeShield is
-- the interface of the time library, Types and Detail are the files types.hpp and detail.hpp.
pub mod TimeShield
pub mod Types
pub mod Detail
pub mod Core
pub mod Planning
pub mod Schedule
pub mod Clocks
pub mod Seconds
pub mod Scan
pub mod Order
pub mod Least
pub mod Next
pub mod Rules
pub mod Registry
pub mod Registered
pub mod Cancelled
pub mod Rescheduling
pub mod Histories
pub mod Running
pub mod Lifetime
mod Tests
