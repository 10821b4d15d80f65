-- ===== src/Client.antt =====
-- The client, src/client: the exchange of packets with the server, resources, the handler of the
-- requests that other clients send, and the operations that FUSE calls.
pub mod Exchange
pub mod Os
pub mod Rsrc
pub mod Handler
pub mod Ops
pub mod Routes
pub mod Remote
