-- ===== src/Lib.antt =====
-- Verification of rito, a C++ library that talks to the League of Legends client (LCU) and to the
-- Riot API. The parts, from the bottom up, and the files that model them:
--
--   include/rito/exception.h, common_types.h               Exception, Types
--   src/lcu_process_handler_helpers.cpp                    Process/Regex, Process/Helpers
--   src/platform/linux/lcu_process_handler_impl_linux.cpp  Process/FileSystem, Process/Linux
--   src/lcu_process_handler.cpp                            Process/Handler
--   src/platform/windows/lcu_process_handler_impl_windows.cpp
--                                                          Process/Windows
--   src/https_rest_client.cpp                              Rest/Client
--   src/riot_rest_handler.cpp                              Rest/Region, Rest/Riot
--   src/lcu_rest_handler.cpp                               Rest/Lcu
--   src/https_websocket_client.cpp                         Websocket/Client
--   src/lcu_websocket_handler.cpp                          Outcome, Websocket/Handler,
--                                                          Websocket/Race
--   src/lcu_wamp_handler.cpp, include/rito/lcu_wamp_handler.h
--                                                          Wamp/Messages, Wamp/Dispatch,
--                                                          Wamp/Handler
--
-- The process handler finds the client's process in a directory like /proc and reads a port and a
-- token from its command line. The LCU REST handler and the websocket handler ask it for both when
-- they have no connection, and build a client of one server with them. The WAMP handler formats
-- messages for the websocket handler and takes apart the messages that come from it.
--
-- A definition has the name of its C++ function, in snake_case; a class is a record with its fields
-- less the prefix m_. A method of an object is a function from its state, together with the world
-- outside the program, to a result and the state it leaves (Act). A result is a value or the
-- exception thrown. A method of the websocket handler may also end the process (Outcome), since
-- many of them are noexcept. A loop with a bound recurses on the frames left (255, the constant of
-- the source); the endless loop of the handler recurses on a schedule, which lists for each round
-- the calls that other threads complete before it. Sizes that the source casts are taken modulo the
-- width of the type: a port modulo 2^16, the length of a frame modulo 2^32.
--
-- Poco's sessions, websockets and JSON values, the file system, the Windows API and the callbacks
-- of the user are parameters: records of functions over a state of the outside. The theorems that
-- need something of them name it: Counts, Sessions, Quiet, Calm, Polite, OnlyPoco, Handles,
-- Libraries, Steady, Untouched, Answers, Welcomes, Drops. Process/Agreement compares the two platforms.
--
-- Websocket/Race models the same handler a shared access at a time, for a thread in run and any
-- number of threads in send_message and stop, and keeps of a client only its being there and its
-- connection. What a lock protects as a whole stays one step, and so does a call of the client by the
-- thread in run, which alone ends clients; stop uses the client with no lock, in two steps, between
-- which it may end. Websocket/Race/Refines relates the two models; Progress, Returns and Falls beside
-- it are about what the threads can still reach.
--
-- Not modelled: the effects of data races on m_stop and on the registered callbacks, which no lock
-- protects; a handler that is destroyed while another thread is in one of its methods; the tests;
-- the build files.
pub mod Common
pub mod Exception
pub mod Result
pub mod Act
pub mod Outcome
pub mod Types
pub mod Process
pub mod Rest
pub mod Websocket
pub mod Wamp
