-- ===== src/SharedBuffer.antt =====
-- The outgoing buffer to the device, `SharedBuffer` of relay-rust/src/relay/client.rs: one cell that
-- the client, its channel and every connection share. `borrowed` is the state of its `RefCell`.
pub mod Atomic
use gnirehtet.Base.{ℕ, Bool, List, length, leb, if◌then◌else◌, IoResult, ok, would_block}
use gnirehtet.StreamBuffer
use gnirehtet.StreamBuffer.{StreamBuffer}
use gnirehtet.IpPacket
use gnirehtet.IpPacket.{IpPacket}

pub record SharedBuffer : Type 0 where
  pub stream : StreamBuffer
  pub borrowed : Bool

-- `ClientChannel::send_raw_to_client`: the bytes go in whole or not at all.
unfoldable pub send_raw_to_client : SharedBuffer → List ℕ → SharedBuffer × IoResult (Unit {0})
send_raw_to_client b raw =
    if b.borrowed
    then (b, would_block)
    else if leb (length raw) (StreamBuffer.remaining b.stream)
    then (record b { stream = StreamBuffer.read_from b.stream raw }, ok tt)
    else (b, would_block)

-- `ClientChannel::send_to_client`, `Client::send_to_client` and
-- `TcpConnection::send_packet_to_buffer`, which are the same code: the length tested is the one that
-- the packet's header states.
unfoldable pub send_to_client : SharedBuffer → IpPacket → SharedBuffer × IoResult (Unit {0})
send_to_client b packet =
    if b.borrowed
    then (b, would_block)
    else if leb (IpPacket.packet_length packet) (StreamBuffer.remaining b.stream)
    then (record b { stream = StreamBuffer.read_from b.stream packet.raw }, ok tt)
    else (b, would_block)
