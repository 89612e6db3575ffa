-- ===== src/Examples/Packets.antt =====
-- Checksums and the packetizer at concrete inputs.
use gnirehtet.Base.{ℕ, ◌+◌, ◌%◌, ◌≡◌, refl, arith, List, [], ◌∷◌, some, IoResult, ok}
use gnirehtet.Checksum.{sum_pairs, close_sum}
use gnirehtet.Checksum.Pairs.{close_sum-word_sum}
use gnirehtet.Checksum.Sums.{word_sum}
use gnirehtet.Packetizer.{Packetizer, packetize_read}
use gnirehtet.Packetizer.Read.{IsPacketOf, packetize_read-IsPacketOf}
use gnirehtet.IpPacket.{IpPacket}
use gnirehtet.Examples.Samples.{packetizer, packetizer-IsLaidOut}

close_sum-word_sum_example :
    (70000
        + word_sum (1 ∷ 2 ∷ [])
        + word_sum (3 ∷ [])
        + close_sum (sum_pairs (sum_pairs (0, 70000) (1 ∷ 2 ∷ [])) (3 ∷ [])))
      % 0xffff
    ≡ 0
close_sum-word_sum_example =
    close_sum-word_sum 70000 (1 ∷ 2 ∷ []) (3 ∷ []) (omega arith) (omega arith, (omega arith, tt))
      (omega arith, tt) (omega arith) (omega arith)

-- A source that has two bytes.
abbrev two_bytes : ℕ → IoResult (List ℕ)
two_bytes room = ok (7 ∷ 8 ∷ [])

packetize_read-IsPacketOf_example :
    (packet : IpPacket) × (p : Packetizer) × (packetize_read two_bytes (some 1460) packetizer
      ≡ (ok (some packet), p))
    × IsPacketOf (7 ∷ 8 ∷ []) packetizer packet p
packetize_read-IsPacketOf_example =
    packetize_read-IsPacketOf two_bytes (some 1460) packetizer 7 (8 ∷ []) packetizer-IsLaidOut refl
      (omega arith)
