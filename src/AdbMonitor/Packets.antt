-- ===== src/AdbMonitor/Packets.antt =====
-- The packets of the daemon, however its bytes come in.
use gnirehtet.Base.{
  ℕ, zero, suc, ◌+◌, ◌^◌, ◌<◌, ◌≤◌, ◌≡◌, ◌∙◌, refl, sym, ap, arith, List, [], ◌∷◌, ◌++◌,
  append_assoc, length, length-append, take, drop, slice, take_left, drop_left, drop-take,
  take-append_le, drop-append_le, dec_lt, lt→ltb, le→ltb, Option, some, none, IoResult, ok, done,
  splice, take-append-drop, length-splice, ◌>>=◌,
}
use gnirehtet.ByteBuffer
use gnirehtet.ByteBuffer.{ByteBuffer, filled, peek}
use gnirehtet.ByteBuffer.Peek.{IsValid, peek-filled, peek-consume, length-peek}
use gnirehtet.Text.{from_utf8}
use gnirehtet.Text.Lines.{from_utf8_ascii}
use gnirehtet.Text.Hex.{hex4, from_hex-hex4, hex4-IsAscii, length-hex4}
use gnirehtet.AdbMonitor.{
  Answers, returns, fails, waits, parse_length, fits, available_packet_length, retrieve,
  read_packet, fill_buffer_from, consume_okay, next_packet,
}

-- A packet as the daemon sends it: its length in four digits, then the bytes.
abbrev pub frame : List ℕ → List ℕ
frame s = hex4 (length s) ++ s

parse_length-hex4 : (n : ℕ) → n < 2 ^ 16 → parse_length (hex4 n) ≡ ok n
unfolding parse_length
parse_length-hex4 n h = rw (from_utf8_ascii (hex4 n) (hex4-IsAscii n h), from_hex-hex4 n h) refl

module _ (input more s tail : List ℕ) (few : length s < 2 ^ 16)
    (all : input ++ more ≡ frame s ++ tail) where
  header_first : 4 ≤ length input → take 4 input ≡ hex4 (length s)
  header_first long =
      sym (take-append_le 4 input more long)
      ∙ ap (take 4) (all ∙ append_assoc (hex4 (length s)) s tail)
      ∙ take_left 4 (hex4 (length s)) (s ++ tail) (sym (length-hex4 (length s)))

  fits_lem :
      (r : IoResult (Option ℕ))
      → fits input (length s) ≡ r
      → 4 ≤ length input
      → available_packet_length input ≡ r
  unfolding available_packet_length
  fits_lem r e long =
      rw (le→ltb (length input) 4 long, header_first long, parse_length-hex4 (length s) few) e

  available_none : length input < 4 + length s → available_packet_length input ≡ ok none
  available_none short = elim (dec_lt (length input) 4) [
    | yes p ↦ unfold available_packet_length in rw (lt→ltb (length input) 4 p) refl
    | no p ↦ fits_lem (ok none) (unfold fits in ground arith) (omega arith)
  ]

  available_some :
      4 + length s ≤ length input → available_packet_length input ≡ ok (some (4 + length s))
  available_some long =
      fits_lem (ok (some (4 + length s))) (unfold fits in ground arith) (omega arith)

module _ (b : ByteBuffer) (v : IsValid b) (more s t tail : List ℕ) (few : length s < 2 ^ 16)
    (reads_as : from_utf8 s ≡ some t) (all : peek b ++ more ≡ frame s ++ tail) where
  read_packet-none : length (peek b) < 4 + length s → read_packet b ≡ done (b, ok none)
  unfolding read_packet
  read_packet-none short = ap (retrieve b) (available_none (peek b) more s tail few all short)

  frame_long : length (frame s) ≡ 4 + length s
  frame_long = omega (arith, length-append (hex4 (length s)) s, length-hex4 (length s))

  module _ (long : 4 + length s ≤ length (peek b)) where
    front : take (4 + length s) (peek b) ≡ frame s
    front =
        sym (take-append_le (4 + length s) (peek b) more long)
        ∙ ap (take (4 + length s)) all
        ∙ take_left (4 + length s) (frame s) tail (sym frame_long)

    content : slice 4 (4 + length s) (peek b) ≡ s
    content =
        sym (drop-take 4 (4 + length s) (peek b))
        ∙ ap (drop 4) front
        ∙ drop_left 4 (hex4 (length s)) s (sym (length-hex4 (length s)))

    behind : drop (4 + length s) (peek b) ++ more ≡ tail
    behind =
        sym (drop-append_le (4 + length s) (peek b) more long)
        ∙ ap (drop (4 + length s)) all
        ∙ drop_left (4 + length s) (frame s) tail (sym frame_long)

    retrieved :
        (b' : ByteBuffer)
        → ByteBuffer.consume (4 + length s) b ≡ done b'
        → retrieve b (ok (some (4 + length s))) ≡ done (b', ok (some t))
    unfolding retrieve
    retrieved b' e =
        let decoded : from_utf8 (slice 4 (4 + length s) (peek b)) ≡ some t =
          ap from_utf8 content ∙ reads_as in
        rw (decoded, e, retrieve) refl

    read_packet-some :
        (b' : ByteBuffer) × (read_packet b ≡ done (b', ok (some t)))
        × (peek b' ++ more ≡ tail)
        × IsValid b'
    unfolding read_packet
    read_packet-some =
        let (b', e, shows, v', _) =
          peek-consume (4 + length s) b v (omega (arith, length-peek b v)) in
        (
          b',
          ap (retrieve b) (available_some (peek b) more s tail few all long) ∙ retrieved b' e,
          ap (λ x. x ++ more) shows ∙ behind,
          v',
        )

-- A packet that is there is returned, and no answer is used.
next_packet_now :
    (reads : Answers) (b b' : ByteBuffer) (t : List ℕ)
    → read_packet b ≡ done (b', ok (some t))
    → next_packet reads b ≡ done (returns t b' reads)
unfolding next_packet
next_packet_now [] b b' t e = rw (e, ◌>>=◌) refl
next_packet_now (read ∷ reads) b b' t e = rw (e, ◌>>=◌) refl

-- Without a packet, bytes that come go into the buffer, and the loop goes on.
next_packet_more :
    (c : List ℕ) (reads : Answers) (b : ByteBuffer)
    → 0 < length c
    → read_packet b ≡ done (b, ok none)
    → next_packet ((λ room. ok c) ∷ reads) b ≡ next_packet reads (filled c b)
unfolding next_packet fill_buffer_from ByteBuffer.read_from
next_packet_more c reads b some_ e = rw (e, ◌>>=◌, lt→ltb 0 (length c) some_) refl

-- A socket that gives these bytes, one piece to a call.
abbrev pub gives : List (List ℕ) → Answers
gives [] = []
gives (c ∷ cs) = (λ room. ok c) ∷ gives cs

abbrev pub concat : List (List ℕ) → List ℕ
concat [] = []
concat (c ∷ cs) = c ++ concat cs

abbrev pub AreFilled : List (List ℕ) → Type 0
AreFilled [] = Unit {0}
AreFilled (c ∷ cs) = (0 < length c) × AreFilled cs

-- The packet is returned, and what is behind it is left, in the buffer and in the socket.
abbrev pub Returns : List ℕ → List ℕ → Answers → ByteBuffer → Type 0
Returns t tail reads b =
    (b' : ByteBuffer) × (left : List (List ℕ)) × (next_packet reads b
      ≡ done (returns t b' (gives left)))
    × (peek b' ++ concat left ≡ tail)
    × IsValid b'

module _ (s t tail : List ℕ) (few : length s < 2 ^ 16) (reads_as : from_utf8 s ≡ some t) where
  whole-Returns :
      (b : ByteBuffer) (cs : List (List ℕ))
      → IsValid b
      → peek b ++ concat cs ≡ frame s ++ tail
      → 4 + length s ≤ length (peek b)
      → Returns t tail (gives cs) b
  whole-Returns b cs v all long =
      let (b', e, rest, v') = read_packet-some b v (concat cs) s t tail few reads_as all long in
      (b', cs, next_packet_now (gives cs) b b' t e, rest, v')

  -- With a valid buffer that has room for all pieces, none of them empty, whose contents and the pieces together are a packet of fewer than
  -- 2^16 bytes of UTF-8 and more, however they are cut, `next_packet` returns the packet's text, and the bytes
  -- behind it are left.
  pub next_packet-Returns :
      (cs : List (List ℕ)) (b : ByteBuffer)
      → IsValid b
      → AreFilled cs
      → b.head + length (concat cs) ≤ length b.buf
      → peek b ++ concat cs ≡ frame s ++ tail
      → Returns t tail (gives cs) b
  next_packet-Returns [] b v filled_ room all = whole-Returns b [] v all (
      omega (
        arith,
        ap length all,
        length-append (peek b) (concat []),
        length-append (frame s) tail,
        frame_long b v (concat []) s t tail few reads_as all,
      ))
  next_packet-Returns (c ∷ cs) b v filled_ room all =
      elim (dec_lt (length (peek b)) (4 + length s)) [
        | no long ↦ whole-Returns b (c ∷ cs) v all (omega arith)
        | yes short ↦
            let (shows, v') = peek-filled c b v (omega (arith, length-append c (concat cs))) in
            let (b', left, e, rest, v'') =
              next_packet-Returns cs (filled c b) v' filled_.1
                (unfold filled in
                  omega (
                    arith,
                    length-append c (concat cs),
                    length-splice b.head c b.buf (omega (arith, length-append c (concat cs))),
                  ))
                (ap (λ x. x ++ concat cs) shows ∙ append_assoc (peek b) c (concat cs) ∙ all) in
            (
              b',
              left,
              next_packet_more c (gives cs) b filled_.0
                    (read_packet-none b v (c ++ concat cs) s t tail few reads_as all short)
                  ∙ e,
              rest,
              v'',
            )
      ]

-- The end of the stream, as often as it is asked.
abbrev pub ended : ℕ → Answers
ended zero = []
ended (suc k) = (λ room. ok []) ∷ ended k

rebuilt :
    (xs : List ℕ) (h : ℕ) (b : ByteBuffer)
    → xs ≡ b.buf
    → h ≡ b.head
    → ◌≡◌ {A = ByteBuffer} (record { buf = xs; head = h }) b
rebuilt xs h b e e' = rw (e, e') refl

filled_none : (b : ByteBuffer) → filled [] b ≡ b
unfolding filled
filled_none b =
    rebuilt (splice b.head [] b.buf) (b.head + 0) b
      (ap (λ k. take b.head b.buf ++ drop k b.buf) (omega arith) ∙ take-append-drop b.head b.buf)
      (omega arith)

consume_okay_waits :
    (k : ℕ) (b : ByteBuffer) → length (peek b) < 4 → consume_okay (ended k) b ≡ done (waits b)
unfolding consume_okay ByteBuffer.read_from
consume_okay_waits zero b short = rw (lt→ltb (length (peek b)) 4 short) refl
consume_okay_waits (suc k) b short =
    rw (lt→ltb (length (peek b)) 4 short)
      (ap (consume_okay (ended k)) (filled_none b) ∙ consume_okay_waits k b short)

next_packet-ended :
    (k : ℕ) (b : ByteBuffer) → length (peek b) < 4 → next_packet (ended (suc k)) b ≡ done (fails b)
unfolding next_packet fill_buffer_from ByteBuffer.read_from read_packet available_packet_length
next_packet-ended k b short =
    rw (lt→ltb (length (peek b)) 4 short) (ap (λ x. done (fails x)) (filled_none b))

-- After the end of a stream that brought fewer than four bytes, `consume_okay` asks for ever, where
-- `next_packet` fails.
pub consume_okay-ended :
    (k : ℕ) (b : ByteBuffer)
    → length (peek b) < 4
    → (consume_okay (ended k) b ≡ done (waits b)) × (next_packet (ended (suc k)) b ≡ done (fails b))
consume_okay-ended k b short = (consume_okay_waits k b short, next_packet-ended k b short)
