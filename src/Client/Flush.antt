-- ===== src/Client/Flush.antt =====
-- The bytes to the device keep their order and none is lost.
use gnirehtet.Base.{
  ℕ, ◌+◌, ◌≤◌, ◌<◌, ◌≡◌, ◌∙◌, ap, refl, sym, arith, true, false, Bool-cases, inl, inr, List, [],
  ◌∷◌, ◌++◌, append-nil, length, take, drop, take_all, drop_all, drop-nil, replicate,
  length-replicate, splice, ◌==◌, ==_iff, if_intro, IoResult, ok, would_block, failed, done, leb,
  le→leb, leb→le,
}
use gnirehtet.StreamBuffer
use gnirehtet.StreamBuffer.{StreamBuffer, size, source_slice}
use gnirehtet.StreamBuffer.Contents.{IsValid, contents, contents-empty, length-contents}
use gnirehtet.StreamBuffer.Drain.{write_to-Drained, write_to_all, source_slice-flat, accepted}
use gnirehtet.SharedBuffer.{SharedBuffer, send_raw_to_client}
use gnirehtet.StreamBuffer.Append.{read_from-tail, read_from-IsValid}
use gnirehtet.Client.{
  Outgoing, Iteration, goes_on, breaks, after_write, write_partial, offer, drain_outgoing,
  cursor_write, queued, flush,
}

-- Nothing else holds the buffer, and its contents start at its first byte.
pub record IsReady (b : SharedBuffer) : Type 0 where
  pub valid : IsValid b.stream
  pub at_start : b.stream.tail ≡ 0
  pub free : b.borrowed ≡ false

over_zeros : (src : List ℕ) (n : ℕ) → length src ≡ n → splice 0 (take n src) (replicate n 0) ≡ src
over_zeros src n e =
    let whole : take n src ≡ src = take_all n src (omega (arith, e)) in
    rw
      (
        whole,
        drop_all {A = ℕ} (0 + length src) (replicate n 0)
            (omega (arith, e, length-replicate {A = ℕ} n 0)),
      )
      (append-nil src)

-- What a drain leaves and returns: all of the contents, and an empty buffer.
pub record Drains (b : SharedBuffer) (r : SharedBuffer × List ℕ) : Type 0 where
  pub all : r.1 ≡ contents b.stream
  pub ready : IsReady r.0
  pub none_left : contents r.0.stream ≡ []

module _ (b : SharedBuffer) (r : IsReady b) where
  drain_empty : (size b.stream == 0) ≡ true → Drains b (b, [])
  unfolding size
  drain_empty e =
      let same : b.stream.head ≡ b.stream.tail = ground (arith, r.at_start, r.valid.head_in) in
      let nothing = contents-empty b.stream same in
      record { all = sym nothing; ready = r; none_left = nothing }

  drain_some :
      (size b.stream == 0) ≡ false
      → Drains b (
        record b { stream = (StreamBuffer.write_to (cursor_write (size b.stream)) b.stream).0 },
        splice 0 (take (size b.stream) (source_slice b.stream)) (replicate (size b.stream) 0),
      )
  unfolding cursor_write
  drain_some e =
      let n = length-contents b.stream r.valid in
      let low : b.stream.tail < b.stream.head = unfold size in ground (arith, r.at_start) in
      let slice_all = source_slice-flat b.stream r.valid low in
      let takes : cursor_write (size b.stream) (source_slice b.stream)
          ≡ ok (length (source_slice b.stream)) =
        ap ok (omega (arith, n, ap length slice_all)) in
      let ended = write_to_all (cursor_write (size b.stream)) b.stream r.valid low takes in
      let (d, _) =
        write_to-Drained (cursor_write (size b.stream)) b.stream r.valid (λ s. omega arith) in
      record {
        all =
            over_zeros (source_slice b.stream) (size b.stream) (ap length slice_all ∙ n)
            ∙ slice_all;
        ready = record { valid = d.valid; at_start = ended.1; free = r.free };
        none_left = contents-empty _ (ended.0 ∙ sym ended.1);
      }

  -- While nothing else holds the buffer and its contents start at its first byte, a drain returns all of the
  -- contents in their order, and leaves an empty buffer of which the same holds.
  pub drain_outgoing-Drains : Drains b (drain_outgoing b)
  unfolding drain_outgoing
  drain_outgoing-Drains =
      if_intro (Drains b) b.borrowed _ _ (λ used. absurd (cc (used, r.free)))
        (λ _. if_intro (Drains b) (size b.stream == 0) _ _ drain_empty drain_some)

  -- What is sent to the client keeps the contents at the first byte.
  pub send_raw_to_client-IsReady : (raw : List ℕ) → IsReady (send_raw_to_client b raw).0
  unfolding send_raw_to_client
  send_raw_to_client-IsReady raw =
      if_intro {A = SharedBuffer × IoResult (Unit {0})} (λ x. IsReady x.0) b.borrowed _ _ (λ _. r)
        (λ _. elim (Bool-cases (leb (length raw) (StreamBuffer.remaining b.stream))) [
          | inl room ↦ rw room (record {
            valid = read_from-IsValid b.stream raw r.valid (leb→le _ _ room);
            at_start = read_from-tail b.stream raw ∙ r.at_start;
            free = r.free;
          })
          | inr full ↦ rw full r
        ])

queued-append : (pending outgoing : List ℕ) → queued pending outgoing ≡ pending ++ outgoing
unfolding queued
queued-append pending [] = sym (append-nil pending)
queued-append [] (x ∷ xs) = refl
queued-append (p ∷ ps) (x ∷ xs) = refl

-- The bytes that wait for the socket, in their order.
abbrev pub waiting : Outgoing → List ℕ
waiting o = o.pending ++ contents o.buffer.stream

-- What an iteration leaves of the bytes that waited, which it offers to the socket in one call: those
-- that the socket did not take.
abbrev pub Flushes : (List ℕ → IoResult ℕ) → SharedBuffer → List ℕ → Iteration → Type 0
Flushes write b all breaks = write all ≡ failed
Flushes write b all (goes_on o progress) =
    (o.buffer ≡ b) × (o.pending ≡ drop (accepted (write all)) all)

after_write_lem :
    (write : List ℕ → IoResult ℕ) (b : SharedBuffer) (all : List ℕ) (r : IoResult ℕ)
    → write all ≡ r
    → accepted r ≤ length all
    → (i : Iteration) × ((after_write b all (write_partial r) ≡ done i) × Flushes write b all i)
unfolding after_write write_partial
after_write_lem write b all (ok n) e few = elim (Bool-cases (n == 0)) [
  | inl z ↦ (
    goes_on (record { buffer = b; pending = all }) false,
    (rw z refl, (refl, nothing n e ((==_iff n 0).0 z))),
  )
  | inr z ↦ (
    goes_on (record { buffer = b; pending = drop n all }) true,
    (rw (z, le→leb n (length all) few) refl, (refl, rw e refl)),
  )
]
  where
    nothing : (n : ℕ) → write all ≡ ok n → n ≡ 0 → all ≡ drop (accepted (write all)) all
    nothing n e z = rw (e, z) refl
after_write_lem write b all would_block e few =
    (goes_on (record { buffer = b; pending = all }) false, (refl, (refl, rw e refl)))
after_write_lem write b all failed e few = (breaks, (refl, e))

offer_lem :
    (write : List ℕ → IoResult ℕ) (b : SharedBuffer) (all : List ℕ)
    → accepted (write all) ≤ length all
    → (i : Iteration) × ((offer write b all ≡ done i) × Flushes write b all i)
unfolding offer
offer_lem write b [] few = (
  goes_on (record { buffer = b; pending = [] }) false,
  (refl, (refl, sym (drop-nil {A = ℕ} (accepted (write []))))),
)
offer_lem write b (x ∷ xs) few = after_write_lem write b (x ∷ xs) (write (x ∷ xs)) refl few

-- Let nothing else hold the buffer and its contents start at its first byte, and let the socket take no more
-- than it is offered. Then the flush does not panic. The socket is offered the pending bytes and behind them the
-- contents of the buffer, in one call if there are any; what it did not take is pending afterwards, in its
-- order, and the buffer is empty and starts at its first byte. The loop ends only when the socket fails.
pub flush_lem :
    (write : List ℕ → IoResult ℕ) (o : Outgoing)
    → IsReady o.buffer
    → ((s : List ℕ) → accepted (write s) ≤ length s)
    → (i : Iteration) × ((b : SharedBuffer) × ((flush write o ≡ done i)
          × IsReady b
          × (contents b.stream ≡ [])
          × Flushes write b (waiting o) i))
unfolding flush
flush_lem write o r honest =
    let d = drain_outgoing-Drains o.buffer r in
    let b = (drain_outgoing o.buffer).0 in
    let all : queued o.pending (drain_outgoing o.buffer).1 ≡ waiting o =
      queued-append o.pending (drain_outgoing o.buffer).1 ∙ ap (λ t. o.pending ++ t) d.all in
    let (i, (offered, left)) = offer_lem write b (waiting o) (honest (waiting o)) in
    (i, (b, (ap (offer write b) all ∙ offered, d.ready, d.none_left, left)))
