-- ===== src/Network.antt =====
-- main/network/sx_network_manager.c: the state of the network, and the events that change it. The task
-- takes one event after the other from its queue (`handle_event`), so an event is a step on the
-- statics of the file and the flags of the protocol manager, which it calls. What the driver, the
-- resolver, `ping` and the access point answer while an event is handled is the record `State.Env`.
pub mod State
pub mod Check
pub mod Handle
pub mod Inv
pub mod Classify
pub mod Mirror
pub mod Queue
mod Tests
