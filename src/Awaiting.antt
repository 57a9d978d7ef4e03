-- ===== src/Awaiting.antt =====
-- include/event_hub/event_awaiter.hpp, event_endpoint.hpp and event_node.hpp: awaiters, and the
-- objects that own subscriptions and awaiters.
pub mod Awaiter
pub mod Endpoint
pub mod Requests
pub mod Node
pub mod Single
pub mod Ending
pub mod Once
pub mod Closing
mod Tests
