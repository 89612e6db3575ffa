-- ===== src/TcpConnection/Events.antt =====
-- The state machine of the connection, apart from the code: what can happen to a connection, where each event
-- leads, and which events a packet from the device is.
use gnirehtet.Base.{Bool, true, List, [], ◌∷◌, ◌++◌, ◌==◌, if◌then◌else◌}
use gnirehtet.StreamBuffer
use gnirehtet.Header.Tcp.{TcpHeaderData, is_syn, is_rst, is_ack, is_fin}
use gnirehtet.TcpConnection.State.{
  TcpState, init, syn_sent, syn_received, established, last_ack, closing, fin_wait1, fin_wait2,
  TcpConnection,
}
use gnirehtet.TcpConnection.Segment.{is_init, is_syn_sent, acks_fin}

-- What the device does: it opens the flow, acknowledges, ends its stream, acknowledges the FIN that was
-- sent to it, or breaks the flow.
pub data Event : Type 0 where
  opens : Event
  acknowledges : Event
  ends_stream : Event
  takes_fin : Event
  breaks : Event

-- The state, and whether the connection is closed.
abbrev pub Phase : Type 0
Phase = TcpState × Bool

abbrev pub phase : TcpConnection → Phase
phase c = (c.tcb.state, c.closed)

-- Where an event leads.
abbrev pub led_by : Event → Phase → Phase
led_by opens (init, b) = (syn_sent, b)
led_by acknowledges (syn_received, b) = (established, b)
led_by ends_stream (established, b) = (last_ack, b)
led_by ends_stream (fin_wait1, b) = (closing, b)
led_by ends_stream (fin_wait2, b) = (fin_wait2, true)
led_by takes_fin (last_ack, b) = (last_ack, true)
led_by takes_fin (closing, b) = (closing, true)
led_by takes_fin (fin_wait1, b) = (fin_wait2, b)
led_by breaks (s, b) = (s, true)
led_by _ (s, b) = (s, b)

abbrev pub after : List Event → Phase → Phase
after [] p = p
after (e ∷ es) p = after es (led_by e p)

abbrev pub when : Bool → Event → List Event
when b e = if b then e ∷ [] else []

-- The events of a packet `h` that takes the connection from `c` to `c'`, in their order. A SYN where one came
-- before breaks the flow, unless it is a copy or the network is not connected yet. The end of the stream
-- counts where no data waits for the network behind which it came. Other packets than the expected one
-- are no events.
abbrev pub events : TcpHeaderData → TcpConnection → TcpConnection → List Event
events h c c' =
    if is_init c.tcb.state
    then (if is_syn h then opens ∷ [] else breaks ∷ [])
    else if is_syn h
    then (if is_syn_sent c.tcb.state
        then []
        else if h.sequence_number == c.tcb.syn_sequence_number
        then []
        else breaks ∷ [])
    else if h.sequence_number == c.tcb.acknowledgement_number
    then (if is_rst h
        then breaks ∷ []
        else when (is_ack h) acknowledges
          ++ ((if is_fin h
                then when (StreamBuffer.is_empty c'.client_to_network) ends_stream
                else [])
              ++ when (acks_fin h c'.tcb.fin_sequence_number) takes_fin))
    else []
