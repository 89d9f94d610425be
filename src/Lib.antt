-- ===== src/Lib.antt =====
-- The firmware of an ESP32 serial server (RS-485 to WiFi, Ethernet, TCP, MQTT, web): the parts of main/
-- that keep state and decide, modelled in the language of the kernel.
--
-- How the parts interact. The serial port cuts received bytes into frames and queues them to the
-- processing task, which hands each frame to the active work mode; the work mode forwards it, for
-- instance by a broadcast to the clients of the TCP server. Data for the port comes from TCP clients,
-- from the web page (whole, or in chunks), and from the Modbus poll task. The network manager takes
-- events of the drivers from a queue, works out whether the network is down, local or external, and tells
-- the protocol manager, which starts and stops the protocols. Every part logs to the two log buffers.
--
-- Which file models which part.
--   Prelude and its children: names of the libraries, Boolean tests, lists on native numbers, C strings
--     and `atoi`, C integers with their wrap-around, byte arrays with a mark for a write out of bounds,
--     the flash store of ESP-IDF as far as it is read, error codes.
--   SerialChunk: main/web/sx_web_server.c, `process_uart_chunk` and `serial_chunk_*`. The static context
--     is the record `ChunkCtx`; a call takes and returns it, with the error code and the calls of
--     `tx_tasks`.
--   SysLog: main/system/sx_log.c. The statics are the record `State`; `log_output_func`,
--     `sx_log_write_simple`, `sx_log_init`, `sx_log_clear` and the getters are functions on it.
--   Protocols: main/protocols/sx_protocol_manager.c. The five flags are the record `Flags`; every
--     function returns them with the list of its calls of the protocol modules.
--   Network: main/network/sx_network_manager.c. State has the status and its helpers, Check the evaluation,
--     Handle `handle_event`, Queue the post of an event and the start. What other tasks do to the
--     status during a check is a field of `Env`.
--   Modbus: main/drivers/sx_modbus.c, and `ModbusCRC16` of main/system/sx_utils.c. Crc has the checksums,
--     Delay the waiting loops, Interval the poll interval, Poll one pass over the items as a list of
--     calls, Task the start and the stop.
--   TcpServer: main/protocols/sx_tcp_server.c. The table of clients with its count is the record `Server`;
--     `init_clients`, `add_client`, `remove_client`, `close_all_clients`, the broadcast and the heartbeat
--     are steps on it.
--     Hex is `hex_to_bin`, Send is `send_to_client`.
--   Uart: main/drivers/sx_async_uart.c. Config has the settings, Frames the loop of `rx_task`, Queue the
--     queue and the loop of `uart_processing_task`.
--   WorkMode: main/system/sx_work_mode.c, main/modes/sx_builtin_modes.c, and the stored mode of
--     main/system/sx_utils.c (Stored).
--   UdpServer: main/protocols/sx_udp_server.c. Datagram has messages and answers, Session the login, Save the
--     writes to the flash, Handle the answer to a datagram, Life and Restart start, stop and the task.
--   DnsServer: main/network/sx_dns_server.c, the parsing of names and requests; Life has start and stop.
--   ApManager: main/network/sx_ap_manager.c, the access point and the timer that closes it.
--   ProtocolApi: main/protocols/sx_protocol_api.c, what work modes send by.
--   Modes: main/modes/mode_tcp_transparent.c (Transparent) and mode_protocol_test.c (EchoTest).
--   TcpClient: main/protocols/sx_tcp_client.c. Hex is its `hex_to_bin`, Packets the register packet and the
--     heartbeat, Link the connection and its two tasks.
--   UrlDecode: main/system/sx_utils.c, `urlDecode`.
--   WebSocket: main/web/sx_web_server.c, the table of WebSocket clients (with Tags, Unique,
--     Replace and Rounds), Payload and Instruction what the page sends to the serial port, Outgoing what it is shown,
--     Disconnect the request to disconnect a tag.
--   MqttClient: main/protocols/sx_mqtt_client.c, `mqtt_apply_config_payload` (with Keys),
--     and in Life the client with its start, its stop and its events.
--   KeyTimer: main/system/sx_timer_tasks.c, `key_timer_callback`; `key_run` is the timer's calls of it.
-- The children of a part that are named for what they prove hold lemmas and theorems; Tests holds each
-- theorem at a concrete input, and runs of the code.
--
-- Bounds and fuel. The delay of the poll task runs on as much fuel as it has milliseconds, and the wait
-- for a response on one more: each round takes a slice of at least a millisecond, so the fuel is never
-- used up, which the theorems on both state. `parse_dns_name` runs on one round more than its buffer has
-- bytes, since each adds a byte at least. `url_decode` takes any
-- number of rounds, and has no result where they are not enough. `send_to_client` recurs on the answers of
-- `send`. All other loops are structural. `size_t` is 32 bits wide, an `int` sum wraps at 32 bits, and a CRC register keeps
-- within 16 bits.
--
-- Parameters. The allocator, the mutexes and queues of FreeRTOS, sockets, ping, the resolver, the flash,
-- cJSON, `atof`, `vsnprintf` and the enumerators of the UART driver are not code of this repository: what they
-- answer is an argument of the functions that ask them.
--
-- Not modelled: the HTTP handlers other than that of the serial port, the text of JSON, the HTTP client, OTA,
-- the LED timers and the clock, and the initialisation of the hardware: calls of ESP-IDF with little state
-- of their own.
pub mod ApManager
pub mod DnsServer
pub mod KeyTimer
pub mod Modbus
pub mod Modes
pub mod MqttClient
pub mod Network
pub mod Prelude
pub mod ProtocolApi
pub mod Protocols
pub mod SerialChunk
pub mod SysLog
pub mod TcpClient
pub mod TcpServer
pub mod Uart
pub mod UdpServer
pub mod UrlDecode
pub mod WebSocket
pub mod WorkMode
