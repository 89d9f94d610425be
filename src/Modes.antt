-- ===== src/Modes.antt =====
-- main/modes: the built-in work modes. Transparent is mode_tcp_transparent.c, EchoTest is
-- mode_protocol_test.c.
pub mod Transparent
pub mod EchoTest
pub mod Fifo
mod Tests
