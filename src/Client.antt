-- ===== src/Client.antt =====
-- relay-rust/src/relay/client.rs: what the client's thread does with the bytes that go to the device. Its
-- send methods are SharedBuffer, its handling of the device's bytes is IpPacketBuffer.
pub mod Flush
pub mod Loop
pub mod Runs
use gnirehtet.Base.{
  ℕ, min, Bool, true, false, not, List, [], ◌∷◌, ◌++◌, length, take, drop, replicate, splice, leb,
  ◌==◌, if◌then◌else◌, IoResult, ok, would_block, failed, Outcome, done, panic, ◌>>=◌, ◌>>◌, check,
}
use gnirehtet.StreamBuffer
use gnirehtet.SharedBuffer.{SharedBuffer}

-- The buffer to the device, and `pending_outgoing` of the loop.
pub record Outgoing : Type 0 where
  pub buffer : SharedBuffer
  pub pending : List ℕ

-- `write` of a `Cursor` over `size` bytes.
unfoldable pub cursor_write : ℕ → List ℕ → IoResult ℕ
cursor_write size source = ok (min (length source) size)

-- `drain_outgoing`: the drained bytes are written over as many zeros.
unfoldable pub drain_outgoing : SharedBuffer → SharedBuffer × List ℕ
unfolding cursor_write
drain_outgoing b =
    let size = StreamBuffer.size b.stream in
    if b.borrowed then (b, []) else if size == 0 then (b, []) else (
      record b { stream = (StreamBuffer.write_to (cursor_write size) b.stream).0 },
      splice 0 (take size (StreamBuffer.source_slice b.stream)) (replicate size 0),
    )

unfoldable pub has_outgoing : SharedBuffer → Bool
has_outgoing b = if b.borrowed then false else not (StreamBuffer.is_empty b.stream)

-- `write_partial`: a full socket has taken nothing.
unfoldable pub write_partial : IoResult ℕ → IoResult ℕ
write_partial (ok n) = ok n
write_partial would_block = ok 0
write_partial failed = failed

abbrev pub is_nil : List ℕ → Bool
is_nil [] = true
is_nil (x ∷ xs) = false

-- The drained bytes join those that the socket has not taken.
unfoldable pub queued : List ℕ → List ℕ → List ℕ
queued pending outgoing =
    if is_nil outgoing then pending else if is_nil pending then outgoing else pending ++ outgoing

-- What the end of an iteration means for the loop: it goes on, having made progress or not, or breaks.
pub data Iteration : Type 0 where
  goes_on : Outgoing → Bool → Iteration
  breaks : Iteration

-- `pending_outgoing.drain(..n)` panics beyond the end.
unfoldable pub after_write : SharedBuffer → List ℕ → IoResult ℕ → Outcome Iteration
after_write b pending would_block = done breaks
after_write b pending failed = done breaks
after_write b pending (ok n) =
    if n == 0
    then done (goes_on (record { buffer = b; pending = pending }) false)
    else check (leb n (length pending))
      >> done (goes_on (record { buffer = b; pending = drop n pending }) true)

-- What waits is offered to the socket, if there is any.
unfoldable pub offer : (List ℕ → IoResult ℕ) → SharedBuffer → List ℕ → Outcome Iteration
unfolding write_partial after_write
offer write b pending =
    if is_nil pending
    then done (goes_on (record { buffer = b; pending = pending }) false)
    else after_write b pending (write_partial (write pending))

-- The flush at the end of an iteration of `run_blocking`.
unfoldable pub flush : (List ℕ → IoResult ℕ) → Outgoing → Outcome Iteration
unfolding drain_outgoing queued offer
flush write o =
    let (b, outgoing) = drain_outgoing o.buffer in offer write b (queued o.pending outgoing)
