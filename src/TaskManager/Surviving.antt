-- ===== src/TaskManager/Surviving.antt =====
-- What becomes of the tasks that are queued when process() begins.
pub mod Live
pub mod Kept
pub mod Calls
pub mod Commands
pub mod Log
pub mod Process
pub mod Queued
