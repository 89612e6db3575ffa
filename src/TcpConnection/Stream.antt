-- ===== src/TcpConnection/Stream.antt =====
-- Every packet from the device, and the byte stream that the relay takes from it.
use gnirehtet.Base.{
  subst, ℕ, ◌≤◌, ◌<◌, ◌^◌, ◌≡◌, refl, sym, arith, true, false, Option, none, some, List, [], ◌∷◌,
  ◌≢◌, ◌⊎◌, inl, inr, if◌then◌else◌, ◌==◌, length, Bool-cases, ==_iff, eq→==, ap, ◌∙◌, ◌+◌,
}
use gnirehtet.StreamBuffer
use gnirehtet.StreamBuffer.Contents.{IsValid}
use gnirehtet.Header.Tcp.{TcpHeaderData, is_syn, is_rst, is_ack, is_fin}
use gnirehtet.TcpConnection.State.{TcpConnection, init, established, close}
use gnirehtet.TcpConnection.Segment.{
  handle_packet, handle_expected, handle_ack, handle_fin, handle_payload, note_window,
  check_fin_ack, ack_in_state, data_of_ack, acks_fin,
}
use gnirehtet.TcpConnection.Frame.{handle_packet_unexpected}
use gnirehtet.TcpConnection.Integrity.{
  Absorbs, Absorbs-none, Absorbs-trans, Absorbs-then, Absorbs-IsWord, ack_in_state-Absorbs,
  handle_fin-Absorbs, check_fin_ack-Absorbs, handle_payload-stores, handle_payload-keeps,
}

-- What the packet's FIN counts for at once: one, if no data waits for the network behind which it came, and
-- the packet is no RST. A FIN behind such data is counted when the data has gone.
abbrev pub counted_fin : TcpHeaderData → TcpConnection → ℕ
counted_fin h c' =
    if is_rst h
    then 0
    else if is_fin h
    then (if StreamBuffer.is_empty c'.client_to_network then 1 else 0)
    else 0

-- What a packet adds to the stream: nothing or its payload, and its FIN.
abbrev pub Adds : TcpHeaderData → Option (List ℕ) → TcpConnection → TcpConnection → Type 0
Adds h payload c c' =
    (bytes : List ℕ) × ((bytes ≡ []) ⊎ (payload ≡ some bytes))
    × Absorbs c c' bytes (counted_fin h c')

module _ (h : TcpHeaderData) (payload : Option (List ℕ)) (c : TcpConnection)
    (v : IsValid c.client_to_network) (w : c.tcb.acknowledgement_number < 2 ^ 32) where
  abbrev idle : StreamBuffer.StreamBuffer → ℕ
  idle b = if StreamBuffer.is_empty b then 1 else 0

  right_zero : (n : ℕ) → n + 0 ≡ n
  right_zero n = omega arith

  left_zero : (n : ℕ) → 0 + n ≡ n
  left_zero n = omega arith

  recount :
      {c' : TcpConnection} {bytes : List ℕ} {m n : ℕ}
      → m ≡ n
      → Absorbs c c' bytes m
      → Absorbs c c' bytes n
  recount {c'} {bytes} e a = subst (λ k. Absorbs c c' bytes k) e a

  abbrev c1 : TcpConnection
  c1 = note_window h c

  abbrev c2 : TcpConnection
  c2 = if is_ack h then handle_ack payload c1 else c1

  abbrev c3 : TcpConnection
  c3 = if is_fin h then handle_fin c2 else c2

  window-Absorbs : Absorbs c c1 [] 0
  unfolding note_window
  window-Absorbs = Absorbs-none c v w c1 refl refl

  ack-Absorbs : (bytes : List ℕ) × ((bytes ≡ []) ⊎ (payload ≡ some bytes)) × Absorbs c c2 bytes 0
  unfolding handle_ack
  ack-Absorbs = elim (Bool-cases (is_ack h)) [
    | inl e ↦
        let (bytes, which, a) =
          ack_in_state-Absorbs c1 window-Absorbs.valid (unfold note_window in w) c1.tcb.state
            payload in
        (bytes, which, rw e (Absorbs-trans window-Absorbs a))
    | inr e ↦ ([], inl refl, rw e window-Absorbs)
  ]

  abbrev counted : ℕ
  counted = if is_fin h then idle c3.client_to_network else 0

  fin-Absorbs :
      (bytes : List ℕ) × ((bytes ≡ []) ⊎ (payload ≡ some bytes)) × Absorbs c c3 bytes counted
  fin-Absorbs =
      let (bytes, which, a) = ack-Absorbs in
      elim (Bool-cases (is_fin h)) [
        | inl e ↦
            let (b, same) = handle_fin-Absorbs c2 a.valid (Absorbs-IsWord a) in
            (
              bytes,
              which,
              rw e (
                  recount (left_zero (idle c2.client_to_network) ∙ sym (ap idle same))
                    (Absorbs-then a b)),
            )
        | inr e ↦ (bytes, which, rw e a)
      ]

  handle_expected-Adds : Adds h payload c (handle_expected h payload c)
  unfolding handle_expected close
  handle_expected-Adds = elim (Bool-cases (is_rst h)) [
    | inl e ↦ (
      [],
      inl refl,
      rw e
          (Absorbs-none c v w (close c1) (unfold note_window in refl) (unfold note_window in refl)),
    )
    | inr e ↦
        let (bytes, which, a) = fin-Absorbs in
        let (b, same) = check_fin_ack-Absorbs c3 a.valid (Absorbs-IsWord a) h in
        let all : counted + 0
            ≡ (if is_fin h then idle (check_fin_ack h c3).client_to_network else 0) =
          right_zero counted ∙ ap (λ b. if is_fin h then idle b else 0) (sym same) in
        (bytes, which, rw e (recount all (Absorbs-then a b)))
  ]

-- Let the data for the network be a valid buffer and the acknowledgement number a 32-bit word. Outside
-- the initial state, a packet without SYN that has the expected sequence number adds to the byte stream
-- for the network nothing or exactly its payload, and moves the acknowledgement number on by the bytes
-- added and by what its FIN counts for: one if the packet has a FIN and no RST and no data waits
-- for the network after it, and nothing otherwise. A packet with another sequence number adds and
-- acknowledges nothing.
pub handle_packet-Adds :
    (isn : ℕ) (h : TcpHeaderData) (payload : Option (List ℕ)) (c : TcpConnection)
    → IsValid c.client_to_network
    → c.tcb.acknowledgement_number < 2 ^ 32
    → c.tcb.state ≢ init
    → is_syn h ≡ false
    → ((h.sequence_number ≡ c.tcb.acknowledgement_number)
        × Adds h payload c (handle_packet isn h payload c))
      ⊎ ((h.sequence_number ≢ c.tcb.acknowledgement_number)
          × Absorbs c (handle_packet isn h payload c) [] 0)
handle_packet-Adds isn h payload c v w opened plain =
    elim (Bool-cases (h.sequence_number == c.tcb.acknowledgement_number)) [
      | inl e ↦
          let same : handle_packet isn h payload c ≡ handle_expected h payload c =
            unfold handle_packet in ground arith in
          rw same (inl ((==_iff _ _).0 e, handle_expected-Adds h payload c v w))
      | inr e ↦
          let other : h.sequence_number ≢ c.tcb.acknowledgement_number =
            λ q. cc (eq→== h.sequence_number c.tcb.acknowledgement_number q) in
          let f = handle_packet_unexpected isn h payload c opened plain other in
          inr (
            other,
            Absorbs-none c v w (handle_packet isn h payload c) f.same_data
                (ap (λ t. t.acknowledgement_number) f.same_tcb),
          )
    ]

-- Let the data for the network be a valid buffer and the acknowledgement number a 32-bit word. In the
-- established state, with no FIN sent, a segment with ACK and without SYN, RST and FIN that has the
-- expected sequence number and a non-empty payload that fits is taken whole: the payload stands
-- behind the data that waits for the network, it is acknowledged, `closed` is as before, and the
-- connection stays established.
pub handle_packet_delivers :
    (isn : ℕ) (h : TcpHeaderData) (b : ℕ) (bytes : List ℕ) (c : TcpConnection)
    → IsValid c.client_to_network
    → c.tcb.acknowledgement_number < 2 ^ 32
    → c.tcb.state ≡ established
    → c.tcb.fin_sequence_number ≡ none
    → is_syn h ≡ false
    → is_rst h ≡ false
    → is_fin h ≡ false
    → is_ack h ≡ true
    → h.sequence_number ≡ c.tcb.acknowledgement_number
    → length (b ∷ bytes) ≤ StreamBuffer.remaining c.client_to_network
    → let c' = handle_packet isn h (some (b ∷ bytes)) c in
      Absorbs c c' (b ∷ bytes) 0 × (c'.closed ≡ c.closed) × (c'.tcb.state ≡ established)
handle_packet_delivers isn h b bytes c v w est nofin plain alive open_ acks seq room =
    let w1 = note_window h c in
    let keeps = handle_payload-keeps (b ∷ bytes) w1 in
    let first = window-Absorbs h (some (b ∷ bytes)) c v w in
    let stores =
      handle_payload-stores w1 first.valid (Absorbs-IsWord first) (b ∷ bytes)
        (unfold note_window in room) in
    let same : handle_packet isn h (some (b ∷ bytes)) c ≡ handle_payload (b ∷ bytes) w1 =
      unfold handle_packet handle_expected handle_ack ack_in_state data_of_ack check_fin_ack
        acks_fin note_window in
      ground (arith, keeps) in
    rw same (
      Absorbs-trans first stores,
      keeps.0 ∙ unfold note_window in refl,
      keeps.1 ∙ unfold note_window in est,
    )
