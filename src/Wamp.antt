-- ===== src/Wamp.antt =====
-- src/lcu_wamp_handler.cpp and include/rito/lcu_wamp_handler.h: the messages of the WAMP protocol
-- on top of the websocket handler.
pub mod Messages
pub mod Dispatch
pub mod Handler
mod Tests
