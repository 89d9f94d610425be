-- ===== src/Modbus.antt =====
-- main/drivers/sx_modbus.c: the poll task of the Modbus master, and its checksum.
pub mod Crc
pub mod Delay
pub mod Waiting
pub mod Poll
pub mod Interval
pub mod Frames
pub mod Task
mod Tests
