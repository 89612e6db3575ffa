-- ===== src/DatagramBuffer/Store.antt =====
-- `read_from` puts a datagram at the end of the queue.
use gnirehtet.Base.{
  ℕ, ◌+◌, ◌-◌, ◌≤◌, ◌<◌, ◌^◌, ◌≡◌, inl, inr, refl, sym, ap, ◌∙◌, arith, true, List, [], ◌∷◌, ◌++◌,
  append-nil, append_assoc, length, length-take, length-splice, length-write_u16, slice, drop,
  le→leb, dec_lt, ok, done, write_u16, u16,
}
use gnirehtet.DatagramBuffer.{DatagramBuffer, has_enough_space_for, wrapped, stored, read_from}
use gnirehtet.DatagramBuffer.Layout.{block, encode, encode-append, slice-stored, slice-stored_low}
use gnirehtet.DatagramBuffer.Queue.{
  IsValid, StartsBelow-last, Flat, Split, Holds, wrapped_below, wrapped_above,
}

space_low :
    (n : ℕ) (b : DatagramBuffer)
    → b.head < b.tail
    → has_enough_space_for n b ≡ true
    → b.head + 2 + n < b.tail
unfolding has_enough_space_for
space_low n b high space = ground arith

module _ (b : DatagramBuffer) (d : List ℕ) (v : IsValid b) (few : length d < 2 ^ 16) where
  abbrev after : ℕ
  after = b.head + 2 + length d

  stored-IsValid : (after ≤ length b.buf) → IsValid (stored d b)
  unfolding stored wrapped
  stored-IsValid fits = record {
    head_in = ground (arith, v.head_in);
    tail_in = v.tail_in;
    room = omega (
      arith,
      v.room,
      length-splice (b.head + 2) d (write_u16 b.head (u16 (length d)) b.buf)
          (omega (arith, length-write_u16 b.head (u16 (length d)) b.buf)),
      length-write_u16 b.head (u16 (length d)) b.buf,
    );
  }

  stored-Flat :
      (ds : List (List ℕ))
      → Flat b ds
      → (b.tail ≡ 0 → after < b.circular_buffer_length)
      → Holds (stored d b) (ds ++ (d ∷ []))
  unfolding stored
  stored-Flat ds f clear =
      let bytes : slice b.tail after (stored d b).buf ≡ encode (ds ++ (d ∷ [])) =
        slice-stored b.tail b.head d b.buf f.low fits few
        ∙ ap (λ t. t ++ block d) f.bytes
        ∙ sym (encode-append ds d) in
      elim (dec_lt after b.circular_buffer_length) [
        | yes below ↦
            let e = wrapped_below b.circular_buffer_length after below in
            inl (record {
              low = omega (arith, e, f.low);
              bytes = ap (λ k. slice b.tail k (stored d b).buf) e ∙ bytes;
            })
        | no above ↦
            let e = wrapped_above b.circular_buffer_length after (omega arith) in
            let some_tail : 0 < b.tail = elim (dec_lt 0 b.tail) [
              | yes h ↦ h
              | no h ↦ absurd (above (clear (omega arith)))
            ] in
            inr (record {
              high = omega (arith, e);
              older = ds ++ (d ∷ []);
              newer = [];
              parts = sym (append-nil (ds ++ (d ∷ [])));
              top = after;
              top_high = omega arith;
              top_in = omega (arith, (stored-IsValid fits).room, v.room, fits);
              starts = StartsBelow-last b.tail b.circular_buffer_length ds d (
                  omega (
                    arith,
                    ap length f.bytes,
                    length-take (b.head - b.tail) (drop b.tail b.buf),
                    v.head_in,
                    f.low,
                  ));
              older_bytes = bytes;
              newer_bytes = ap (λ k. slice 0 k (stored d b).buf) e;
            })
      ]
    where
      fits : after ≤ length b.buf
      fits = omega (arith, v.room, v.head_in)

  stored-Split :
      (ds : List (List ℕ)) → Split b ds → after < b.tail → Holds (stored d b) (ds ++ (d ∷ []))
  unfolding stored
  stored-Split ds s room =
      let e = wrapped_below b.circular_buffer_length after (omega (arith, v.tail_in)) in
      let fits : after ≤ length b.buf = omega (arith, v.room, v.head_in) in
      inr (record {
        high = omega (arith, e);
        older = s.older;
        newer = s.newer ++ (d ∷ []);
        parts = ap (λ t. t ++ (d ∷ [])) s.parts ∙ append_assoc s.older s.newer (d ∷ []);
        top = s.top;
        top_high = s.top_high;
        top_in = omega (arith, (stored-IsValid fits).room, v.room, s.top_in);
        starts = s.starts;
        older_bytes =
            slice-stored_low b.tail s.top b.head d b.buf (omega arith)
              (omega (arith, v.room, v.tail_in))
            ∙ s.older_bytes;
        newer_bytes =
            ap (λ k. slice 0 k (stored d b).buf) e
            ∙ slice-stored 0 b.head d b.buf (omega arith) fits few
            ∙ ap (λ t. t ++ block d) s.newer_bytes
            ∙ sym (encode-append s.newer d);
      })

  -- Let the buffer be valid and hold `ds`. A datagram of fewer than 2 ^ 16 bytes that has enough space is
  -- taken, behind the others, if it does not end the circular part while the tail is at its start.
  pub read_from-Holds :
      (ds : List (List ℕ))
      → Holds b ds
      → has_enough_space_for (length d) b ≡ true
      → (b.tail ≡ 0 → after < b.circular_buffer_length)
      → (b' : DatagramBuffer) × (read_from d b ≡ done (b', ok tt))
        × IsValid b'
        × Holds b' (ds ++ (d ∷ []))
  unfolding read_from
  read_from-Holds ds h space clear =
      let fits : after ≤ length b.buf = omega (arith, v.room, v.head_in) in
      (
        stored d b,
        rw (le→leb (length d) (2 ^ 16) (omega arith), space, le→leb after (length b.buf) fits) refl,
        stored-IsValid fits,
        elim h [
          | inl f ↦ stored-Flat ds f clear
          | inr s ↦ stored-Split ds s (space_low (length d) b s.high space)
        ],
      )
