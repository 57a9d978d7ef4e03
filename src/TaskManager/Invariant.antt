-- ===== src/TaskManager/Invariant.antt =====
-- What holds of a TaskManager between the steps of its operations.
pub mod Defs
pub mod Frame
pub mod Cancel
pub mod Submit
pub mod Delayed
pub mod Clear
pub mod Commands
pub mod Take
pub mod Finish
pub mod Process
pub mod Post
pub mod Periodic
pub mod Start
