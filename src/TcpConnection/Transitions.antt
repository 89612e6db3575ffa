-- ===== src/TcpConnection/Transitions.antt =====
-- The events of each packet lead the connection where the state machine says.
use gnirehtet.Base.{ℕ, ◌≡◌, refl, ap, true, List, Option, [], if◌then◌else◌}
use gnirehtet.StreamBuffer
use gnirehtet.Header.Tcp.{TcpHeaderData, is_ack, is_fin}
use gnirehtet.TcpConnection.State.{
  TcpState, established, fin_wait1, fin_wait2, TcpConnection, close,
}
use gnirehtet.TcpConnection.Send.{send_empty_packet_to_client}
use gnirehtet.TcpConnection.Segment.{
  handle_ack, handle_fin, do_handle_fin, note_window, fin_in_state,
}
use gnirehtet.TcpConnection.Events.{Event, ends_stream, phase, led_by, when}

same_phase : (c : TcpConnection) (s : TcpState) → c.tcb.state ≡ s → phase c ≡ (s, c.closed)
same_phase c s e = ap (λ x. (x, c.closed)) e

fin_in_state-phase :
    (s : TcpState) (c : TcpConnection)
    → c.tcb.state ≡ s
    → phase (fin_in_state s c) ≡ led_by ends_stream (s, c.closed)
unfolding fin_in_state close send_empty_packet_to_client
fin_in_state-phase established c e = refl
fin_in_state-phase fin_wait1 c e = refl
fin_in_state-phase fin_wait2 c e = ap (λ x. (x, true)) e
fin_in_state-phase _ c e = unfold fin_in_state in same_phase c _ e

pub do_handle_fin-phase :
    (c : TcpConnection) → phase (do_handle_fin c) ≡ led_by ends_stream (phase c)
unfolding do_handle_fin
do_handle_fin-phase c = fin_in_state-phase c.tcb.state _ refl

module _ (h : TcpHeaderData) (payload : Option (List ℕ)) (c : TcpConnection) where
  abbrev c1 : TcpConnection
  c1 = note_window h c

  abbrev c2 : TcpConnection
  c2 = if is_ack h then handle_ack payload c1 else c1

  abbrev c3 : TcpConnection
  c3 = if is_fin h then handle_fin c2 else c2

  -- The end of the stream, as the data that waits lets it count.
  abbrev ended : StreamBuffer.StreamBuffer → List Event
  ended b = if is_fin h then when (StreamBuffer.is_empty b) ends_stream else []
