-- ===== src/DatagramBuffer/Take.antt =====
-- `write_to` takes the datagram at the front of the queue.
use gnirehtet.Base.{
  ℕ, ◌+◌, ◌-◌, ◌≤◌, ◌<◌, ◌^◌, ◌≡◌, ◌≢◌, inl, inr, refl, sym, ap, ◌∙◌, arith, List, [], ◌∷◌, ◌++◌,
  length, length-take, length-drop, slice, drop, le→leb, ne→==, dec_lt, subst, get_or, IoResult,
  done,
}
use gnirehtet.DatagramBuffer.{DatagramBuffer, is_empty, wrapped, sent, write_to}
use gnirehtet.Base.{read_u16}
use gnirehtet.DatagramBuffer.Layout.{
  block, encode, block_length, block_bytes, block_rest, block_fits,
}
use gnirehtet.DatagramBuffer.Queue.{IsValid, StartsBelow, Flat, Holds, wrapped_below, wrapped_above}

none_start :
    (lo limit : ℕ) (ds : List (List ℕ)) → ¬ (lo < limit) → StartsBelow lo limit ds → ds ≡ []
none_start lo limit [] above starts = refl
none_start lo limit (d ∷ ds) above starts = absurd (above starts.0)

-- The datagram at the tail, and the buffer without it.
module _ (b : DatagramBuffer) (d : List ℕ) (ds : List (List ℕ)) (v : IsValid b)
    (few : length d < 2 ^ 16) where
  abbrev next : ℕ
  next = b.tail + 2 + length d

  abbrev rest : DatagramBuffer
  rest = record b { tail = wrapped b.circular_buffer_length next }

  rest-IsValid : IsValid rest
  unfolding wrapped
  rest-IsValid = record { head_in = v.head_in; tail_in = ground (arith, v.tail_in); room = v.room }

  -- What a call reads there.
  record Reads : Type 0 where
    pub some_there : b.head ≢ b.tail
    pub fits : next ≤ length b.buf
    pub says : read_u16 b.tail b.buf ≡ length d
    pub gives : slice (b.tail + 2) next b.buf ≡ d
    pub leaves : Holds rest ds

  Flat-Reads : Flat b (d ∷ ds) → Reads
  Flat-Reads f =
      let in_ : b.head ≤ length b.buf = omega (arith, v.head_in, v.room) in
      let short = block_fits b.tail b.head d (encode ds) b.buf few f.bytes in_ in
      let e = wrapped_below b.circular_buffer_length next (omega (arith, v.head_in, short)) in
      record {
        some_there = λ q. omega (arith, q, short);
        fits = omega arith;
        says = block_length b.tail b.head d (encode ds) b.buf few f.bytes in_;
        gives = block_bytes b.tail b.head d (encode ds) b.buf few f.bytes in_;
        leaves = inl (record {
          low = omega (arith, e, short);
          bytes =
              ap (λ k. slice k b.head b.buf) e
              ∙ block_rest b.tail b.head d (encode ds) b.buf few f.bytes in_;
        });
      }

  Split-Reads :
      (older newer : List (List ℕ)) (top : ℕ)
      → b.head < b.tail
      → ds ≡ older ++ newer
      → b.circular_buffer_length ≤ top
      → top ≤ length b.buf
      → StartsBelow next b.circular_buffer_length older
      → slice b.tail top b.buf ≡ encode (d ∷ older)
      → slice 0 b.head b.buf ≡ encode newer
      → Reads
  Split-Reads older newer top high parts top_high top_in starts older_bytes newer_bytes =
      let short = block_fits b.tail top d (encode older) b.buf few older_bytes top_in in
      record {
        some_there = λ q. omega (arith, q);
        fits = omega arith;
        says = block_length b.tail top d (encode older) b.buf few older_bytes top_in;
        gives = block_bytes b.tail top d (encode older) b.buf few older_bytes top_in;
        leaves = elim (dec_lt next b.circular_buffer_length) [
          | yes below ↦
              let e = wrapped_below b.circular_buffer_length next below in
              inr (record {
                high = omega (arith, e);
                older = older;
                newer = newer;
                parts = parts;
                top = top;
                top_high = top_high;
                top_in = top_in;
                starts = subst (λ k. StartsBelow k b.circular_buffer_length older) (sym e) starts;
                older_bytes =
                    ap (λ k. slice k top b.buf) e
                    ∙ block_rest b.tail top d (encode older) b.buf few older_bytes top_in;
                newer_bytes = newer_bytes;
              })
          | no above ↦
              let e = wrapped_above b.circular_buffer_length next (omega arith) in
              let all_newer : ds ≡ newer =
                parts
                ∙ ap (λ t. t ++ newer)
                    (none_start next b.circular_buffer_length older above starts) in
              inl (record {
                low = omega (arith, e);
                bytes = ap (λ k. slice k b.head b.buf) e ∙ newer_bytes ∙ ap encode (sym all_newer);
              })
        ];
      }

  Split-cases :
      (older newer : List (List ℕ)) (top : ℕ)
      → b.head < b.tail
      → d ∷ ds ≡ older ++ newer
      → b.circular_buffer_length ≤ top
      → top ≤ length b.buf
      → StartsBelow b.tail b.circular_buffer_length older
      → slice b.tail top b.buf ≡ encode older
      → slice 0 b.head b.buf ≡ encode newer
      → Reads
  Split-cases [] newer top high parts top_high top_in starts older_bytes newer_bytes = absurd (
      omega (
        arith,
        ap length older_bytes,
        length-take (top - b.tail) (drop b.tail b.buf),
        length-drop b.tail b.buf,
        v.tail_in,
      ))
  Split-cases (d' ∷ older) newer top high parts top_high top_in starts older_bytes newer_bytes =
      let same : d' ≡ d = sym (ap (λ t. get_or t 0 d) parts) in
      let start : b.tail + length (block d') ≡ next = omega (arith, ap length same) in
      Split-Reads older newer top high (ap (drop 1) parts) top_high top_in
        (subst (λ k. StartsBelow k b.circular_buffer_length older) start starts.1)
        (older_bytes ∙ ap (λ t. encode (t ∷ older)) same) newer_bytes

  Holds-Reads : Holds b (d ∷ ds) → Reads
  Holds-Reads (inl f) = Flat-Reads f
  Holds-Reads (inr s) =
      Split-cases s.older s.newer s.top s.high s.parts s.top_high s.top_in s.starts s.older_bytes
        s.newer_bytes

  -- Let the buffer be valid and hold a datagram of fewer than 2 ^ 16 bytes before `ds`. Then exactly this
  -- datagram is sent, in one call, the buffer holds `ds` whatever the answer is, and the result is that of
  -- the destination, a part that was sent being an error.
  pub write_to-Holds :
      (send : List ℕ → IoResult ℕ)
      → Holds b (d ∷ ds)
      → (b' : DatagramBuffer) × (write_to send b ≡ done (b', sent (length d) (send d)))
        × IsValid b'
        × Holds b' ds
  unfolding write_to is_empty
  write_to-Holds send h =
      let r = Holds-Reads h in
      (
        rest,
        rw
            (
              ne→== b.head b.tail r.some_there,
              le→leb (b.tail + 2) (length b.buf) (omega (arith, r.fits)),
              r.says,
              le→leb next (length b.buf) r.fits,
              r.gives,
            )
            refl,
        rest-IsValid,
        r.leaves,
      )
