-- ===== src/Examples/Segments.antt =====
-- Segments from the device at concrete inputs. The flags are 16 for ACK, 17 with FIN.
use gnirehtet.Base.{ℕ, ◌≡◌, ◌≢◌, ◌⊎◌, refl, arith, List, [], ◌∷◌, some, none}
use gnirehtet.StreamBuffer
use gnirehtet.StreamBuffer.Contents.{new-IsValid}
use gnirehtet.Header.Tcp.{TcpHeaderData, is_syn, is_rst, is_ack, is_fin}
use gnirehtet.TcpConnection.State.{init, established, TcpConnection}
use gnirehtet.TcpConnection.Send.{send_empty_packet_to_client}
use gnirehtet.TcpConnection.Segment.{handle_packet}
use gnirehtet.TcpConnection.Poll.{eof}
use gnirehtet.TcpConnection.Frame.{SameFlow}
use gnirehtet.TcpConnection.Integrity.{Absorbs}
use gnirehtet.TcpConnection.Stream.{Adds, handle_packet-Adds, handle_packet_delivers}
use gnirehtet.TcpConnection.Faults.{eof_deaf}
use gnirehtet.Examples.Samples.{segment, connection}

abbrev opened : TcpConnection
opened = connection 100 established

-- The segment that the connection expects next, with an ACK of all that was sent.
abbrev expected : TcpHeaderData
expected = segment 16 101 5000

abbrev last : TcpHeaderData
last = segment 17 101 5000

abbrev bytes : List ℕ
bytes = 1 ∷ 2 ∷ 3 ∷ []

not_init : established ≢ init
not_init e = cc e

handle_packet-Adds_example :
    ((last.sequence_number ≡ opened.tcb.acknowledgement_number)
      × Adds last (some bytes) opened (handle_packet 7 last (some bytes) opened))
    ⊎ ((last.sequence_number ≢ opened.tcb.acknowledgement_number)
        × Absorbs opened (handle_packet 7 last (some bytes) opened) [] 0)
unfolding is_syn
handle_packet-Adds_example =
    handle_packet-Adds 7 last (some bytes) opened (new-IsValid 10) (omega arith) not_init refl

handle_packet_delivers_example :
    let c = handle_packet 7 expected (some bytes) opened in
    Absorbs opened c bytes 0 × (c.closed ≡ opened.closed) × (c.tcb.state ≡ established)
unfolding is_syn is_rst is_fin is_ack StreamBuffer.new StreamBuffer.remaining StreamBuffer.capacity
    StreamBuffer.size
handle_packet_delivers_example =
    handle_packet_delivers 7 expected 1 (2 ∷ 3 ∷ []) opened (new-IsValid 10) (omega arith) refl refl
      refl refl refl refl refl (omega arith)

-- The device's FIN after the end of the network's stream.
eof_deaf_example :
    SameFlow (eof opened) (handle_packet 7 last none (eof opened))
    × (handle_packet 7 last none (eof opened) ≡ send_empty_packet_to_client 16 (eof opened))
unfolding is_syn
eof_deaf_example = eof_deaf 7 last none opened (omega arith) refl refl
