-- ===== src/TcpConnection.antt =====
-- relay-rust/src/relay/tcp_connection.rs: one TCP flow of the device, terminated by the relay.
-- Definitions: State (the record, the control block and its tests), Send (what goes to the device),
-- Segment (what arrives from the device) and Poll (the network socket). The other children prove.
pub mod State
pub mod Send
pub mod Segment
pub mod Poll
pub mod Create
pub mod Frame
pub mod Faults
pub mod Stream
pub mod Integrity
pub mod Window
pub mod Events
pub mod Transitions
pub mod Receive
pub mod PollRounds
pub mod PollTransitions
pub mod Blocked
pub mod Overwritten
pub mod Socks
pub mod Tunnel
