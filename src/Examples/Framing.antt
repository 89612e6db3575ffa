-- ===== src/Examples/Framing.antt =====
-- The bytes that a device sends, at concrete inputs.
use gnirehtet.Base.{
  read_u16, read_u32, ℕ, ◌+◌, ◌≡◌, refl, arith, List, [], ◌∷◌, replicate, none, some, Outcome, done,
}
use gnirehtet.ByteBuffer
use gnirehtet.Header.Ipv4.{icmp}
use gnirehtet.Header.Ip.{v4}
use gnirehtet.IpPacket
use gnirehtet.IpPacket.{IpPacket}
use gnirehtet.IpPacketBuffer.{IpPacketBuffer, available_packet_info, as_ip_packet, feed_loop}
use gnirehtet.IpPacketBuffer.Framing.{bytes_of, IsValid}
use gnirehtet.IpPacketBuffer.Loop.{MeetsEmpty, feed_loop-ends, feed_loop_stuck}

-- An ICMP packet whose header states the length 0.
abbrev empty_packet : List ℕ
empty_packet = 0x45 ∷ 0 ∷ 0 ∷ 0 ∷ 0 ∷ 0 ∷ 0 ∷ 0 ∷ 64 ∷ 1 ∷ replicate 10 0

abbrev stuck : IpPacketBuffer
stuck = record { buf = record { buf = empty_packet; head = 20 } }

stuck-IsValid : IsValid stuck
stuck-IsValid = record { head_in = omega arith }

abbrev parsed_packet : IpPacket
parsed_packet = record {
  raw = [];
  ip_header_data = v4 (record {
    version = 4;
    header_length = 20;
    total_length = 0;
    protocol = icmp;
    source = 0;
    destination = 0;
  });
  transport_header_data = none;
}

-- A router that counts the packets.
abbrev count : ℕ → IpPacket → Outcome ℕ
count n packet = done (n + 1)

stuck-info : available_packet_info (bytes_of stuck) ≡ some (4, 0)
unfolding read_u16 available_packet_info ByteBuffer.peek
stuck-info = refl

stuck-parsed : as_ip_packet stuck ≡ done (some parsed_packet)
unfolding read_u16 read_u32 as_ip_packet available_packet_info ByteBuffer.peek IpPacket.parse
    IpPacket.parse_v4
stuck-parsed = refl

feed_loop_stuck_example : feed_loop count 100 stuck 0 0 ≡ done none
feed_loop_stuck_example =
    feed_loop_stuck count stuck parsed_packet 4 stuck-IsValid stuck-info stuck-parsed
      (λ n. (n + 1, refl)) 100 0 0

feed_loop-ends_example : MeetsEmpty (bytes_of stuck)
feed_loop-ends_example =
    feed_loop-ends count 100 stuck 0 0 stuck-IsValid (omega arith) feed_loop_stuck_example
