-- ===== src/Ws.antt =====
-- app/services/ws and app/api/routers/ws: the WebSocket connections of the admins.
pub mod Protocol
pub mod Delivery
pub mod Bridge
pub mod Control
pub mod Manager
pub mod Reach
pub mod Reauth
pub mod Handshake
