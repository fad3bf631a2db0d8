-- ===== src/Gateway.antt =====
-- backend/app/ws/manager.py: the connections of the WebSocket gateway.
pub mod Manager
pub mod Registry
pub mod Broadcast
pub mod Private
pub mod Proven
