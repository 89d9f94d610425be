-- ===== src/TcpClient.antt =====
-- main/protocols/sx_tcp_client.c: the TCP client. Hex is its `hex_to_bin`, Packets the register packet and
-- the heartbeat, Link the connection with its tasks.
pub mod Hex
pub mod Written
pub mod Packets
pub mod HexPackets
pub mod Link
mod Tests
