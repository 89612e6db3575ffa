-- ===== src/Examples.antt =====
-- The theorems at concrete inputs: Samples has the data.
pub mod Samples
pub mod Buffers
pub mod Packets
pub mod Framing
pub mod Segments
pub mod Polls
pub mod Registry
pub mod Datagrams
pub mod Routing
pub mod Device
pub mod Monitor
pub mod Commands
pub mod Proxy
pub mod Loop
pub mod Waiting
