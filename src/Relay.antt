-- ===== src/Relay.antt =====
-- The web relay, web-interface-js/backend/server.js; `History` is the whole of its bus over time.
pub mod Token
pub mod Http
pub mod Bus
pub mod History
