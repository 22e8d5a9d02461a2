-- ===== src/Rest.antt =====
-- REST over HTTPS: the client of one server, and the handlers for the Riot API and for the LCU.
pub mod Client
pub mod Region
pub mod Riot
pub mod Lcu
mod Tests
