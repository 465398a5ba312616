-- ===== src/Server.antt =====
-- internal/node/server: the services that answer other nodes and clients.
pub mod Dht
pub mod Stream
pub mod Api
pub mod Served
pub mod Remote
pub mod Forward
