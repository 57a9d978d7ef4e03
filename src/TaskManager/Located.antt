-- ===== src/TaskManager/Located.antt =====
-- Where the tasks of a TaskManager are: in every state but the final ones, a control's entry is in
-- the container that its state names.
pub mod Defs
pub mod Commands
pub mod Submit
pub mod Clear
pub mod Take
pub mod Finish
pub mod Process
pub mod Holding
pub mod Restore
pub mod Promote
