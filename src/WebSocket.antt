-- ===== src/WebSocket.antt =====
-- src/WebSocketsServer.cpp: the frames of the protocol, the table of clients, and the life of one
-- connection. Sockets are the bytes that arrive and the bytes that are sent.
pub mod Socket
pub mod Frame
pub mod RoundTrip
pub mod Clients
pub mod Numbers
pub mod Sha1
pub mod Accept
pub mod Session
pub mod Delivery
pub mod Mask
