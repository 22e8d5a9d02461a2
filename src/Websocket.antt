-- ===== src/Websocket.antt =====
-- The websocket connection to the LCU: the client of one connection, and the handler that keeps it.
pub mod Client
pub mod Handler
pub mod Race
mod Tests
