-- ===== src/TcpConnection/State.antt =====
-- The connection's record, the control block `Tcb`, and the tests on them.
use gnirehtet.Base.{
  ℕ, Bool, true, false, not, ◌||◌, Option, none, some, min, ltb, leb, ◌==◌, if◌then◌else◌, add32,
  sub32,
}
use gnirehtet.StreamBuffer
use gnirehtet.StreamBuffer.{StreamBuffer}
use gnirehtet.Packetizer.{Packetizer}
use gnirehtet.SharedBuffer.{SharedBuffer}
use gnirehtet.IpPacket.{is_some}

pub data TcpState : Type 0 where
  init syn_sent syn_received established last_ack closing fin_wait1 fin_wait2 : TcpState

unfoldable pub is_connected : TcpState → Bool
is_connected init = false
is_connected syn_sent = false
is_connected syn_received = false
is_connected established = true
is_connected last_ack = true
is_connected closing = true
is_connected fin_wait1 = true
is_connected fin_wait2 = true

unfoldable pub is_closed : TcpState → Bool
is_closed fin_wait1 = true
is_closed fin_wait2 = true
is_closed closing = true
is_closed last_ack = true
is_closed init = false
is_closed syn_sent = false
is_closed syn_received = false
is_closed established = false

pub record Tcb : Type 0 where
  pub state : TcpState
  pub syn_sequence_number : ℕ
  pub sequence_number : ℕ
  pub acknowledgement_number : ℕ
  pub their_acknowledgement_number : ℕ
  pub fin_sequence_number : Option ℕ
  pub fin_received : Bool
  pub client_window : ℕ

unfoldable pub new_tcb : Tcb
new_tcb = record {
  state = init;
  syn_sequence_number = 0;
  sequence_number = 0;
  acknowledgement_number = 0;
  their_acknowledgement_number = 0;
  fin_sequence_number = none;
  fin_received = false;
  client_window = 0;
}

-- How much more the device is willing to take.
unfoldable pub remaining_client_window : Tcb → ℕ
remaining_client_window t =
    let remaining =
      sub32 (add32 t.their_acknowledgement_number t.client_window) t.sequence_number in
    if t.client_window == 0 then 0 else if leb remaining t.client_window then remaining else 0

-- `buffer` is the cell that all connections of the client share: whoever calls a connection
-- passes in the cell as it stands, and takes it out again. The socket, the id and the client's
-- weak reference are not part of the record.
pub record TcpConnection : Type 0 where
  pub buffer : SharedBuffer
  pub client_to_network : StreamBuffer
  pub network_to_client : Packetizer
  pub packet_for_client_length : Option ℕ
  pub closed : Bool
  pub tcb : Tcb
  pub bytes_sent : ℕ
  pub bytes_received : ℕ

unfoldable pub close : TcpConnection → TcpConnection
close c = record c { closed = true }

unfoldable pub advertised_window : TcpConnection → ℕ
advertised_window c = min (StreamBuffer.remaining c.client_to_network) 0xffff

unfoldable pub may_write : TcpConnection → Bool
may_write c = not (StreamBuffer.is_empty c.client_to_network)

unfoldable pub may_read : TcpConnection → Bool
unfolding is_connected is_closed remaining_client_window
may_read c =
    if not (is_connected c.tcb.state) || is_closed c.tcb.state
    then false
    else if is_some c.packet_for_client_length
    then false
    else ltb 0 (remaining_client_window c.tcb)

-- The updates of one field of the control block.
abbrev pub set_state : TcpState → TcpConnection → TcpConnection
set_state s c = record c { tcb = record c.tcb { state = s } }

abbrev pub add_sequence : ℕ → TcpConnection → TcpConnection
add_sequence n c = record c {
  tcb = record c.tcb { sequence_number = add32 c.tcb.sequence_number n };
}

abbrev pub add_acknowledgement : ℕ → TcpConnection → TcpConnection
add_acknowledgement n c = record c {
  tcb = record c.tcb { acknowledgement_number = add32 c.tcb.acknowledgement_number n };
}

-- The FIN sent to the device has the sequence number that is next.
abbrev pub note_fin : TcpConnection → TcpConnection
note_fin c = record c { tcb = record c.tcb { fin_sequence_number = some c.tcb.sequence_number } }
