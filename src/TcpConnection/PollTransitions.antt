-- ===== src/TcpConnection/PollTransitions.antt =====
-- The states that a poll of the network socket leads through.
use gnirehtet.Base.{[], ℕ, ◌≡◌, true, ok}
use gnirehtet.StreamBuffer
use gnirehtet.StreamBuffer.{write_to}
use gnirehtet.TcpConnection.State.{
  TcpState, syn_sent, syn_received, last_ack, closing, established, fin_wait1, TcpConnection,
}
use gnirehtet.TcpConnection.Poll.{Answers}

-- One transition in a poll of the connection `c` whose socket answers `a`, with its cause.
pub data PollStep (a : Answers) (c : TcpConnection) : TcpState → TcpState → Type 0 where
  -- The socket of a flow that waits for the network turns out to be connected.
  connected : (w : ℕ) → a.connect ≡ ok w → PollStep a c syn_sent syn_received
  -- The device has ended its stream, and the last of its data is written in this poll.
  fin_counts :
      c.tcb.fin_received ≡ true
      → StreamBuffer.is_empty (write_to a.write c.client_to_network).0 ≡ true
      → PollStep a c established last_ack
  fin_crosses :
      c.tcb.fin_received ≡ true
      → StreamBuffer.is_empty (write_to a.write c.client_to_network).0 ≡ true
      → PollStep a c fin_wait1 closing
  -- A read finds the end of the network's stream.
  network_ends : (i room : ℕ) → a.read i room ≡ ok [] → PollStep a c established fin_wait1

-- Some transitions of one poll in a row.
pub data Moves (a : Answers) (c : TcpConnection) : TcpState → TcpState → Type 0 where
  stay : {s : TcpState} → Moves a c s s
  move : {s s' s'' : TcpState} → PollStep a c s s' → Moves a c s' s'' → Moves a c s s''

module _ (a : Answers) (start : TcpConnection) where
  -- What the stages before the writing leave as it was.
  abbrev IsFresh : TcpConnection → Type 0
  IsFresh c =
      (c.tcb.fin_received ≡ start.tcb.fin_received)
      × (c.client_to_network ≡ start.client_to_network)
