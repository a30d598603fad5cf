-- ===== src/Messaging.antt =====
-- Private messages, and the subscriptions of a user.
pub mod Order
pub mod Conversations
pub mod Subscribing
pub mod Delivering
pub mod Around
pub mod Handlers
pub mod Reached
