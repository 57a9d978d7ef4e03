-- ===== src/EventBus.antt =====
-- include/event_hub/event_bus.hpp. The state is in EventBus/Types, the subscriptions in
-- EventBus/Subscriptions, dispatch and the event queue in EventBus/Dispatch.
pub mod Types
pub mod Subscriptions
pub mod Dispatch
pub mod Removal
pub mod Serving
pub mod Order
pub mod Tests
