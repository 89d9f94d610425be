-- ===== src/Uart.antt =====
-- main/drivers/sx_async_uart.c: the serial port. Its configuration, the task that cuts the byte stream
-- into frames, and the queue to the task that hands the frames to the work mode.
pub mod Config
pub mod Usable
pub mod Frames
pub mod Queue
pub mod Stream
pub mod Idle
pub mod Backlog
mod Tests
