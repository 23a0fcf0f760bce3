-- ===== src/Server.antt =====
-- server/CPPImpl/Server.h and Server.cpp: `Client` has the queues of one connected client, `Access`
-- the choice of the client for an action, and `Registry` the clients and the names under which they
-- logged in. The sockets, the timers and the event loop are the platform's: a call returns what it
-- hands to them.
pub mod Client
pub mod Access
pub mod Registry
