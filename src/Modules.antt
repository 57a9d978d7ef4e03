-- ===== src/Modules.antt =====
-- include/event_hub/module.hpp and module_hub.hpp: modules and the hub that owns them.
pub mod Module
pub mod Worker
pub mod Hub
pub mod Running
pub mod Threads
pub mod Lifecycle
pub mod Stopping
pub mod Starting
mod Tests
