-- ===== src/TcpConnection/PollRounds.antt =====
-- What the rounds and stages of a poll do to the state of the connection.
use gnirehtet.Base.{
  [], ◌∷◌, ℕ, zero, suc, ◌+◌, ◌≡◌, ◌⊎◌, inl, inr, arith, refl, Bool, true, false, not, ◌||◌,
  Bool-cases, List, Option, none, some, ◌==◌, ◌∙◌, IoResult, ok, would_block, failed,
}
use gnirehtet.IpPacket.{IpPacket, is_some}
use gnirehtet.TcpConnection.State.{
  TcpState, established, fin_wait1, TcpConnection, close, remaining_client_window, may_read,
  is_connected, is_closed,
}
use gnirehtet.TcpConnection.Send.{send_empty_packet_to_client}
use gnirehtet.TcpConnection.Poll.{
  flush_pending_packet, reset_and_close, eof, Round, again, leave, deliver, received, receive_one,
  receive_loop, Stage, ends, goes_on, after_io, flush_stage,
}
use gnirehtet.Packetizer.{Packetizer, read_answer, packetize_read}

-- The flush neither moves the connection nor takes data from it.
flush_pending_packet-keeps :
    (c : TcpConnection)
    → let c' = (flush_pending_packet c).0 in
      (c'.tcb.state ≡ c.tcb.state)
      × (c'.tcb.fin_received ≡ c.tcb.fin_received)
      × (c'.client_to_network ≡ c.client_to_network)
unfolding flush_pending_packet
flush_pending_packet-keeps c = (ground arith, ground arith, ground arith)

pub reset_and_close-state : (c : TcpConnection) → (reset_and_close c).tcb.state ≡ c.tcb.state
unfolding reset_and_close close send_empty_packet_to_client
reset_and_close-state c = refl

deliver-state :
    (packet : IpPacket) (c : TcpConnection) → (deliver packet c).0.tcb.state ≡ c.tcb.state
unfolding deliver
deliver-state packet c = ground arith

eof-state : (c : TcpConnection) → (eof c).tcb.state ≡ fin_wait1
unfolding eof
eof-state c = refl

-- A round ends the stream only at an answer of no bytes.
Ended : IoResult (Option IpPacket) → TcpConnection × Round → Type 0
Ended r out = (out.0.tcb.state ≡ fin_wait1) × (out.1 ≡ leave true) × (r ≡ ok none)

received-state :
    (r : IoResult (Option IpPacket)) (c : TcpConnection)
    → c.tcb.state ≡ established
    → ((received r c).0.tcb.state ≡ established) ⊎ Ended r (received r c)
unfolding received Ended
received-state (ok none) c e = inr (eof-state c, refl, refl)
received-state (ok (some packet)) c e = inl (deliver-state packet c ∙ e)
received-state would_block c e = inl e
received-state failed c e = inl (reset_and_close-state c ∙ e)

read_answer-none :
    (r : IoResult (List ℕ)) (p : Packetizer) → (read_answer r p).0 ≡ ok none → r ≡ ok []
unfolding read_answer
read_answer-none (ok []) p e = refl
read_answer-none (ok (b ∷ bytes)) p e = cc e
read_answer-none would_block p e = cc e
read_answer-none failed p e = cc e

Round-cases : (r : Round) → (r ≡ again) ⊎ ((p : Bool) × (r ≡ leave p))
Round-cases again = inl refl
Round-cases (leave p) = inr (p, refl)

-- The connection after the loop, and the read that found the end, if there was one.
unfoldable pub Ends : (ℕ → ℕ → IoResult (List ℕ)) → TcpConnection → Type 0
Ends read c = (c.tcb.state ≡ fin_wait1) × ((i : ℕ) × (room : ℕ) × (read i room ≡ ok []))

receive_one-state :
    (read : ℕ → IoResult (List ℕ)) (c : TcpConnection)
    → c.tcb.state ≡ established
    → ((receive_one read c).0.tcb.state ≡ established)
      ⊎ (((receive_one read c).0.tcb.state ≡ fin_wait1)
          × ((receive_one read c).1 ≡ leave true)
          × ((room : ℕ) × (read room ≡ ok [])))
unfolding receive_one packetize_read Ended
receive_one-state read c e = elim (received-state _ _ e) [
  | inl q ↦ inl q
  | inr (fin, out, r) ↦ inr (fin, out, (_, read_answer-none _ _ r))
]

-- The loop stays in the state, or ends with the FIN.
pub receive_loop-state :
    (read : ℕ → ℕ → IoResult (List ℕ)) (left i : ℕ) (progress : Bool) (c : TcpConnection)
    → c.tcb.state ≡ established
    → ((receive_loop read left i progress c).0.tcb.state ≡ established)
      ⊎ Ends read (receive_loop read left i progress c).0
unfolding receive_loop Ends
receive_loop-state read zero i progress c e = inl e
receive_loop-state read (suc left) i progress c e =
    elim (Bool-cases (is_some c.packet_for_client_length || remaining_client_window c.tcb == 0)) [
      | inl stop ↦ rw (receive_loop, stop) (inl e)
      | inr on ↦ elim (receive_one-state (read i) c e) [
        | inl same ↦ elim (Round-cases (receive_one (read i) c).1) [
          | inl more ↦
              rw (receive_loop, on, more) (receive_loop-state read left (i + 1) true _ same)
          | inr (p, stop) ↦ rw (receive_loop, on, stop) (inl same)
        ]
        | inr (fin, stop, (room, ended)) ↦ rw (receive_loop, on, stop) (inr (fin, (i, room, ended)))
      ]
    ]

open_state : (s : TcpState) → (not (is_connected s) || is_closed s) ≡ false → s ≡ established
unfolding is_connected is_closed
open_state established e = refl
open_state _ e = cc e

pub may_read-established : (c : TcpConnection) → may_read c ≡ true → c.tcb.state ≡ established
unfolding may_read
may_read-established c e =
    open_state c.tcb.state
      (elim (Bool-cases (not (is_connected c.tcb.state) || is_closed c.tcb.state)) [
        | inl shut ↦ ground (arith, shut)
        | inr clear ↦ clear
      ])

pub IoResult-cases : (r : IoResult ℕ) → ((w : ℕ) × (r ≡ ok w)) ⊎ ((r ≡ would_block) ⊎ (r ≡ failed))
IoResult-cases (ok w) = inl (w, refl)
IoResult-cases would_block = inr (inl refl)
IoResult-cases failed = inr (inr refl)

-- What a stage of the poll leaves.
abbrev pub left_by : Stage → TcpConnection
left_by (ends c r) = c
left_by (goes_on c p) = c

pub after_io-state :
    (progress : Bool) (c : TcpConnection) (r : IoResult (Unit {0}))
    → (left_by (after_io progress (c, r))).tcb.state ≡ c.tcb.state
unfolding after_io
after_io-state progress c (ok _) = refl
after_io-state progress c would_block = refl
after_io-state progress c failed = reset_and_close-state c

pub flush_stage-keeps :
    (c : TcpConnection)
    → let c' = left_by (flush_stage c) in
      (c'.tcb.state ≡ c.tcb.state)
      × (c'.tcb.fin_received ≡ c.tcb.fin_received)
      × (c'.client_to_network ≡ c.client_to_network)
unfolding flush_stage
flush_stage-keeps c =
    let k = flush_pending_packet-keeps c in
    (ground (arith, k), ground (arith, k), ground (arith, k))
