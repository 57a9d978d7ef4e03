-- ===== src/TaskManager/Sorted.antt =====
-- The order of the delayed heap by deadline, through every operation.
pub mod Submit
pub mod Commands
pub mod Process
pub mod Finish
