-- ===== src/UdpServer.antt =====
-- main/protocols/sx_udp_server.c: the commands on UDP port 37210. Datagram has what the code reads of a
-- parsed message, Session the login and its session, Save the writes to the flash, Handle the answer to
-- a datagram; Guard, Login and Stores hold theorems.
pub mod Datagram
pub mod Session
pub mod Save
pub mod Handle
pub mod Guard
pub mod Life
pub mod Login
pub mod Restart
pub mod Stores
mod Tests
