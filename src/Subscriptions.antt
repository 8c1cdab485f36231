-- ===== src/Subscriptions.antt =====
-- WebSocket subscriptions: backend/src/websocket/subscriptionManager.js.
pub mod Manager
pub mod Consistency
pub mod Server
pub mod Replies
