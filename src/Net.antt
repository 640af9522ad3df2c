-- ===== src/Net.antt =====
-- vc-core/src/net.rs and the payloads of vc-core/src/key_exchange.rs and vc-core/src/latency.rs:
-- what is on the wire. Socket is UdpSocket.
pub mod Addr
pub mod Header
pub mod Wire
pub mod Join
pub mod Ping
pub mod KeyExchangePayload
pub mod PeerList
pub mod Socket
