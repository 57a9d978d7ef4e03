-- ===== src/RunLoop.antt =====
-- RunLoop of include/event_hub/run_loop.hpp. The buses and managers that it has pointers to are
-- objects in two stores, named by numbers.
pub mod Loop
pub mod Waiting
mod Tests
