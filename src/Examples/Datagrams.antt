-- ===== src/Examples/Datagrams.antt =====
-- The datagram queue and UDP connections at concrete inputs.
use gnirehtet.Base.{
  true, panic, ℕ, ◌+◌, ◌<◌, ◌≡◌, ◌⊎◌, refl, arith, true, false, List, [], ◌∷◌, some, length,
  IoResult, ok, done, ◌≤◌,
}
use gnirehtet.DatagramBuffer
use gnirehtet.DatagramBuffer.{
  DatagramBuffer, has_enough_space_for, is_empty, sent, read_from, write_to,
}
use gnirehtet.DatagramBuffer.Queue.{IsValid, Holds, new-IsValid, new-Holds}
use gnirehtet.DatagramBuffer.Trip.{read_from-write_to}
use gnirehtet.DatagramBuffer.Overrun.{read_from_overrun}
use gnirehtet.Header.Ip
use gnirehtet.Header.Transport
use gnirehtet.IpPacket.{bytes_behind, holds_headers}
use gnirehtet.UdpConnection.{UdpConnection, send_to_network}
use gnirehtet.UdpConnection.Datagrams.{Queued, send_to_network-Holds}
use gnirehtet.StreamBuffer
use gnirehtet.Examples.Samples.{packet, packetizer}

abbrev bytes : List ℕ
bytes = 1 ∷ 2 ∷ 3 ∷ []

abbrev queue : DatagramBuffer
queue = DatagramBuffer.new 100

queue_space : has_enough_space_for 3 queue ≡ true
unfolding has_enough_space_for DatagramBuffer.new
queue_space = refl

queue_clear : queue.tail ≡ 0 → queue.head + 2 + 3 < queue.circular_buffer_length
unfolding DatagramBuffer.new
queue_clear e = omega arith

abbrev accepts : List ℕ → IoResult ℕ
accepts s = ok (length s)

read_from-write_to_example :
    (full : DatagramBuffer) × ((empty : DatagramBuffer) × ((read_from bytes queue
          ≡ done (full, ok tt))
        × (write_to accepts full ≡ done (empty, sent 3 (accepts bytes)))
        × IsValid empty
        × Holds empty []))
read_from-write_to_example =
    read_from-write_to queue bytes accepts (new-IsValid 100) (new-Holds 100) (omega arith)
      queue_space queue_clear

abbrev short_queue : DatagramBuffer
short_queue = DatagramBuffer.new 4

short_queue_ends : short_queue.circular_buffer_length ≤ short_queue.head + 2 + 3
unfolding DatagramBuffer.new
short_queue_ends = omega arith

short_queue_starts : short_queue.tail ≡ 0
unfolding DatagramBuffer.new
short_queue_starts = refl

read_from_overrun_example :
    (b : DatagramBuffer) × (read_from bytes short_queue ≡ done (b, ok tt)) × (is_empty b ≡ true)
read_from_overrun_example =
    read_from_overrun short_queue bytes (new-IsValid 4) short_queue_starts (omega arith)
      short_queue_ends

abbrev pub flow : UdpConnection
flow = record {
  buffer = record { stream = StreamBuffer.new 100; borrowed = false };
  client_to_network = queue;
  network_to_client = packetizer;
  closed = false;
  idle_since = 7;
  bytes_sent = 0;
  bytes_received = 0;
}

packet-behind : bytes_behind packet ≡ some bytes
unfolding bytes_behind Ip.header_length Transport.header_length
packet-behind = refl

send_to_network-Holds_example :
    ((holds_headers packet ≡ true) × Queued packet bytes flow [])
    ⊎ ((holds_headers packet ≡ false) × (send_to_network packet flow ≡ panic))
send_to_network-Holds_example =
    send_to_network-Holds packet bytes flow [] packet-behind (omega arith) (new-IsValid 100)
      (new-Holds 100) queue_clear
