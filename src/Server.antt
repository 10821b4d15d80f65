-- ===== src/Server.antt =====
-- The server, src/server: the list of the connected clients and the handlers of packets.
pub mod Clients
pub mod Handler
