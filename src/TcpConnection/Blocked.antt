-- ===== src/TcpConnection/Blocked.antt =====
-- What a poll that makes no progress leaves.
use gnirehtet.Base.{
  ℕ, zero, suc, ◌+◌, ◌≡◌, ◌∙◌, refl, arith, Bool, true, false, not, ◌&&◌, ◌||◌, List, Option, none,
  some, ◌==◌, if_intro, IoResult, ok, would_block, failed,
}
use gnirehtet.IpPacket.{IpPacket, is_some}
use gnirehtet.TcpConnection.State.{
  TcpState, syn_sent, TcpConnection, remaining_client_window, may_read, may_write,
}
use gnirehtet.TcpConnection.Poll.{
  Answers, flush_pending_packet, process_send, Round, again, leave, deliver, received, receive_one,
  receive_loop, process_receive, Stage, ends, goes_on, then_stage, after_io, flush_stage,
  send_stage, receive_stage, connect_in_state, connect_stage, end_of, poll_self, progress_result,
  max_packets_per_poll,
}

-- Without progress the connection is open.
abbrev Open : Bool → TcpConnection → Type 0
Open progress c = progress ≡ false → c.closed ≡ false

-- A blocked result leaves an open connection.
abbrev OpenResult : TcpConnection × IoResult (Unit {0}) → Type 0
OpenResult r = r.1 ≡ would_block → r.0.closed ≡ false

abbrev OpenStage : Stage → Type 0
OpenStage (ends c r) = OpenResult (c, r)
OpenStage (goes_on c progress) = Open progress c

abbrev OpenRound : TcpConnection × Round → Type 0
OpenRound (c, again) = Unit {0}
OpenRound (c, leave p) = Open p c

OpenRound-intro : (r : TcpConnection × Round) → r.0.closed ≡ false → OpenRound r
OpenRound-intro (c, again) h = tt
OpenRound-intro (c, leave p) h = λ _. h

deliver-closed : (packet : IpPacket) (c : TcpConnection) → (deliver packet c).0.closed ≡ c.closed
unfolding deliver
deliver-closed packet c = ground arith

flush_pending_packet-closed : (c : TcpConnection) → (flush_pending_packet c).0.closed ≡ c.closed
unfolding flush_pending_packet
flush_pending_packet-closed c = ground arith

deliver_open :
    (packet : IpPacket) (c : TcpConnection) → c.closed ≡ false → OpenRound (deliver packet c)
unfolding deliver
deliver_open packet c h = OpenRound-intro (deliver packet c) (deliver-closed packet c ∙ h)

received_open :
    (r : IoResult (Option IpPacket)) (c : TcpConnection)
    → c.closed ≡ false
    → OpenRound (received r c)
unfolding received
received_open (ok none) c h = λ e. cc e
received_open (ok (some packet)) c h = deliver_open packet c h
received_open would_block c h = λ _. h
received_open failed c h = λ e. cc e

OpenPair : TcpConnection × Bool → Type 0
OpenPair r = Open r.1 r.0

leave-Open :
    (progress p : Bool) (c : TcpConnection)
    → (progress ≡ false → p ≡ false → c.closed ≡ false)
    → Open (progress || p) c
leave-Open true p c h = λ e. cc e
leave-Open false p c h = λ e. h refl e

receive_loop-Open :
    (read : ℕ → ℕ → IoResult (List ℕ)) (left i : ℕ) (progress : Bool) (c : TcpConnection)
    → Open progress c
    → OpenPair (receive_loop read left i progress c)
unfolding receive_loop receive_one OpenPair
receive_loop-Open read zero i progress c h = h
receive_loop-Open read (suc left) i progress c h =
    elim (is_some c.packet_for_client_length || remaining_client_window c.tcb == 0)
      as (λ b.
        OpenPair (elim b [ true ↦ (c, progress) | false ↦ after_round (receive_one (read i) c) ])) [
          | true ↦ h
          | false ↦
              after_round_open (λ c'. receive_loop-Open read left (i + 1) true c' (λ e. cc e))
                (receive_one (read i) c) (λ e. received_open _ _ (h e))
        ]
  where
    after_round : TcpConnection × Round → TcpConnection × Bool
    after_round (c', again) = receive_loop read left (i + 1) true c'
    after_round (c', leave p) = (c', progress || p)

    after_round_open :
        ((c' : TcpConnection) → OpenPair (receive_loop read left (i + 1) true c'))
        → (r : TcpConnection × Round) → (progress ≡ false → OpenRound r)
        → OpenPair (after_round r)
    after_round_open next (c', again) o = next c'
    after_round_open next (c', leave p) o = leave-Open progress p c' o

after_io_open :
    (progress : Bool) (r : TcpConnection × IoResult (Unit {0}))
    → (progress ≡ false → OpenResult r)
    → OpenStage (after_io progress r)
unfolding after_io
after_io_open progress (c, ok _) h = λ e. cc e
after_io_open progress (c, would_block) h = λ e. h e refl
after_io_open progress (c, failed) h = λ e. cc e

flush_stage_open : (c : TcpConnection) → c.closed ≡ false → OpenStage (flush_stage c)
unfolding flush_stage
flush_stage_open c h =
    let same = flush_pending_packet-closed c ∙ h in
    if_intro OpenStage (is_some c.packet_for_client_length) _ _
      (λ _.
        elim (flush_pending_packet c).1
          as (λ r. OpenStage (elim r [
            | ok _ ↦ goes_on (flush_pending_packet c).0 true
            | would_block ↦ ends (flush_pending_packet c).0 would_block
            | failed ↦ ends (flush_pending_packet c).0 failed
          ])) [ ok _ ↦ λ e. same | would_block ↦ λ e. same | failed ↦ λ e. same ])
      (λ _ e. h)

process_send_open :
    (write : List ℕ → IoResult ℕ) (c : TcpConnection)
    → c.closed ≡ false
    → OpenResult (process_send write c)
unfolding process_send
process_send_open write c h = ground arith

send_stage-Open :
    (a : Answers) (c : TcpConnection) (progress : Bool)
    → Open progress c
    → OpenStage (send_stage a c progress)
unfolding send_stage
send_stage-Open a c progress h =
    if_intro OpenStage (may_write c) _ _
      (λ _.
        after_io_open progress (process_send a.write c) (λ e. process_send_open a.write c (h e)))
      (λ _. h)

progress-Open : (r : TcpConnection × Bool) → Open r.1 r.0 → OpenResult (r.0, progress_result r.1)
progress-Open (c, true) h = λ e. cc e
progress-Open (c, false) h = λ _. h refl

receive_stage-Open :
    (a : Answers) (c : TcpConnection) (progress : Bool)
    → Open progress c
    → OpenStage (receive_stage a c progress)
unfolding receive_stage process_receive OpenPair
receive_stage-Open a c progress h =
    if_intro OpenStage (not c.closed && may_read c) _ _
      (λ _. after_io_open progress (process_receive a.read c) (λ e.
        progress-Open (receive_loop a.read max_packets_per_poll 0 false c)
          (receive_loop-Open a.read max_packets_per_poll 0 false c (λ _. h e))))
      (λ _. h)

connect_in_state-Open :
    (r : IoResult ℕ) (state : TcpState) (c : TcpConnection) (progress : Bool)
    → Open progress c
    → OpenStage (connect_in_state r state c progress)
unfolding connect_in_state
connect_in_state-Open (ok _) syn_sent c progress h = λ e. cc e
connect_in_state-Open would_block syn_sent c progress h = h
connect_in_state-Open failed syn_sent c progress h = λ e. cc e
connect_in_state-Open _ _ c progress h = h

connect_stage-Open :
    (a : Answers) (c : TcpConnection) (progress : Bool)
    → Open progress c
    → OpenStage (connect_stage a c progress)
unfolding connect_stage
connect_stage-Open a c progress h = connect_in_state-Open a.connect c.tcb.state c progress h

then_stage-Open :
    (first : Stage) (next : TcpConnection → Bool → Stage)
    → OpenStage first
    → ((c : TcpConnection) (progress : Bool) → Open progress c → OpenStage (next c progress))
    → OpenStage (then_stage first next)
then_stage-Open (ends c r) next h step = h
then_stage-Open (goes_on c progress) next h step = step c progress h

end_of_open : (s : Stage) → OpenStage s → OpenResult (end_of s)
end_of_open (ends c r) h = h
end_of_open (goes_on c true) h = λ e. cc e
end_of_open (goes_on c false) h = λ _. h refl

-- A poll that reports no progress leaves the connection open.
pub poll_self_open :
    (a : Answers) (c : TcpConnection)
    → (poll_self a c).1 ≡ would_block
    → (poll_self a c).0.closed ≡ false
unfolding poll_self
poll_self_open a c =
    if_intro OpenResult c.closed _ _ (λ _ e. cc e)
      (λ h. end_of_open _ (
        then_stage-Open _ (connect_stage a)
          (then_stage-Open _ (receive_stage a)
            (then_stage-Open _ (send_stage a) (flush_stage_open c h) (send_stage-Open a))
            (receive_stage-Open a))
          (connect_stage-Open a)))
