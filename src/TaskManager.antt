-- ===== src/TaskManager.antt =====
-- include/event_hub/task_manager.hpp. The state is in TaskManager/Types, the operations that submit
-- and cancel work in TaskManager/Submit and TaskManager/Cancel, the consumer side in
-- TaskManager/Process.
pub mod Types
pub mod Delayed
pub mod Submit
pub mod Surviving
pub mod Cancel
pub mod Process
pub mod Invariant
pub mod Located
pub mod History
pub mod Counts
pub mod Clearing
pub mod Batch
pub mod Due
pub mod Deadline
pub mod Cancelling
pub mod Restoring
pub mod Tests
pub mod Sorted
pub mod Turns
pub mod Ids
