-- ===== src/TcpConnection/Integrity.antt =====
-- The device's byte stream: what is acknowledged is what was stored for the network.
use gnirehtet.Base.{
  if◌then◌else◌, ℕ, ◌+◌, ◌^◌, ◌≤◌, ◌<◌, ◌≡◌, refl, arith, true, Option, none, some, List, [], ◌∷◌,
  ◌++◌, ◌⊎◌, inl, inr, add32, length, append-nil, append_assoc, length-append, ap, ◌∙◌, Bool-cases,
  le→ltb, lt→ltb, dec_lt,
}
use gnirehtet.StreamBuffer.{StreamBuffer}
use gnirehtet.StreamBuffer
use gnirehtet.StreamBuffer.Contents.{contents, IsValid}
use gnirehtet.StreamBuffer.Append.{contents-read_from, read_from-IsValid}
use gnirehtet.Header.Tcp.{TcpHeaderData}
use gnirehtet.TcpConnection.State.{TcpConnection, TcpState, syn_received, established, last_ack}
use gnirehtet.TcpConnection.Send.{send_empty_packet_to_client}
use gnirehtet.TcpConnection.Segment.{
  handle_fin, do_handle_fin, handle_fin_ack, handle_payload, data_of_ack, ack_in_state,
  fin_in_state, fin_ack_in_state, check_fin_ack, acks_fin,
}

-- `bytes` went to the end of the data for the network, and the acknowledgement moved on by their
-- number and by `fins` more.
pub record Absorbs (c c' : TcpConnection) (bytes : List ℕ) (fins : ℕ) : Type 0 where
  pub valid : IsValid c'.client_to_network
  pub stored : contents c'.client_to_network ≡ contents c.client_to_network ++ bytes
  pub acked :
      c'.tcb.acknowledgement_number ≡ add32 c.tcb.acknowledgement_number (length bytes + fins)

abbrev pub IsWord : ℕ → Type 0
IsWord n = n < 2 ^ 32

-- What the handlers of a segment leave: nothing of the data, or the payload more.
module _ (c : TcpConnection) (v : IsValid c.client_to_network)
    (w : IsWord c.tcb.acknowledgement_number) where
  pub Absorbs-none :
      (c' : TcpConnection)
      → c'.client_to_network ≡ c.client_to_network
      → c'.tcb.acknowledgement_number ≡ c.tcb.acknowledgement_number
      → Absorbs c c' [] 0
  Absorbs-none c' same ack = record {
    valid = rw same v;
    stored = rw (same, append-nil);
    acked = omega arith;
  }

  -- What fits is stored and acknowledged.
  pub handle_payload-stores :
      (bytes : List ℕ)
      → length bytes ≤ StreamBuffer.remaining c.client_to_network
      → Absorbs c (handle_payload bytes c) bytes 0
  unfolding handle_payload send_empty_packet_to_client
  handle_payload-stores bytes room =
      rw (le→ltb (StreamBuffer.remaining c.client_to_network) (length bytes) room) (record {
        valid = read_from-IsValid c.client_to_network bytes v room;
        stored = contents-read_from c.client_to_network bytes v room;
        acked = omega arith;
      })

  handle_payload-Absorbs :
      (bytes : List ℕ)
      → Absorbs c (handle_payload bytes c) bytes 0 ⊎ Absorbs c (handle_payload bytes c) [] 0
  unfolding handle_payload send_empty_packet_to_client
  handle_payload-Absorbs bytes =
      elim (dec_lt (StreamBuffer.remaining c.client_to_network) (length bytes)) [
        | yes full ↦ rw (lt→ltb _ _ full) (inr (Absorbs-none _ refl refl))
        | no fits ↦ inl (handle_payload-stores bytes (omega arith))
      ]

  data_of_ack-Absorbs :
      (payload : Option (List ℕ))
      → (bytes : List ℕ) × ((bytes ≡ []) ⊎ (payload ≡ some bytes))
        × Absorbs c (data_of_ack payload c) bytes 0
  unfolding data_of_ack
  data_of_ack-Absorbs none = ([], inl refl, Absorbs-none c refl refl)
  data_of_ack-Absorbs (some []) = ([], inl refl, Absorbs-none c refl refl)
  data_of_ack-Absorbs (some (b ∷ bytes)) = elim (handle_payload-Absorbs (b ∷ bytes)) [
    | inl a ↦ (b ∷ bytes, inr refl, a)
    | inr a ↦ ([], inl refl, a)
  ]

  -- By the state, which is matched beside the connection.
  pub ack_in_state-Absorbs :
      (s : TcpState) (payload : Option (List ℕ))
      → (bytes : List ℕ) × ((bytes ≡ []) ⊎ (payload ≡ some bytes))
        × Absorbs c (ack_in_state s payload c) bytes 0
  unfolding ack_in_state
  ack_in_state-Absorbs syn_received payload = ([], inl refl, Absorbs-none _ refl refl)
  ack_in_state-Absorbs _ payload = unfold ack_in_state in data_of_ack-Absorbs payload

pub fin_in_state-data :
    (s : TcpState) (c : TcpConnection)
    → ((fin_in_state s c).client_to_network ≡ c.client_to_network)
      × ((fin_in_state s c).tcb.acknowledgement_number ≡ c.tcb.acknowledgement_number)
unfolding fin_in_state send_empty_packet_to_client
fin_in_state-data established c = (refl, refl)
fin_in_state-data _ c = (refl, refl)

pub fin_ack_in_state-data :
    (s : TcpState) (c : TcpConnection)
    → ((fin_ack_in_state s c).client_to_network ≡ c.client_to_network)
      × ((fin_ack_in_state s c).tcb.acknowledgement_number ≡ c.tcb.acknowledgement_number)
unfolding fin_ack_in_state
fin_ack_in_state-data last_ack c = (refl, refl)
fin_ack_in_state-data _ c = (refl, refl)

module _ (c : TcpConnection) (v : IsValid c.client_to_network)
    (w : IsWord c.tcb.acknowledgement_number) where
  -- The FIN is counted at once if no data waits, and only recorded otherwise.
  pub handle_fin-Absorbs :
      Absorbs c (handle_fin c) [] (if StreamBuffer.is_empty c.client_to_network then 1 else 0)
      × ((handle_fin c).client_to_network ≡ c.client_to_network)
  unfolding handle_fin do_handle_fin
  handle_fin-Absorbs =
      let counted = record c {
        tcb = record c.tcb {
          fin_received = true;
          acknowledgement_number = add32 c.tcb.acknowledgement_number 1;
        };
      } in
      let same = fin_in_state-data c.tcb.state counted in
      elim (Bool-cases (StreamBuffer.is_empty c.client_to_network)) [
        | inl idle ↦ rw idle (
          record { valid = rw same.0 v; stored = rw (same.0, append-nil); acked = rw same.1 },
          same.0,
        )
        | inr busy ↦ rw busy (Absorbs-none c v w _ refl refl, refl)
      ]

  pub check_fin_ack-Absorbs :
      (h : TcpHeaderData)
      → Absorbs c (check_fin_ack h c) [] 0
        × ((check_fin_ack h c).client_to_network ≡ c.client_to_network)
  unfolding check_fin_ack handle_fin_ack
  check_fin_ack-Absorbs h =
      let same = fin_ack_in_state-data c.tcb.state c in
      elim (Bool-cases (acks_fin h c.tcb.fin_sequence_number)) [
        | inl hit ↦ rw hit (Absorbs-none c v w _ same.0 same.1, same.0)
        | inr miss ↦ rw miss (Absorbs-none c v w _ refl refl, refl)
      ]

pub Absorbs-trans :
    {c c' c'' : TcpConnection} {a b : List ℕ} {m n : ℕ}
    → Absorbs c c' a m
    → Absorbs c' c'' b n
    → Absorbs c c'' (a ++ b) (m + n)
Absorbs-trans {c} {a} {b} p q = record {
  valid = q.valid;
  stored = q.stored ∙ ap (λ t. t ++ b) p.stored ∙ append_assoc (contents c.client_to_network) a b;
  acked = omega (arith, p.acked, q.acked, length-append a b);
}

-- A step that takes no more bytes.
pub Absorbs-then :
    {c c' c'' : TcpConnection} {a : List ℕ} {m n : ℕ}
    → Absorbs c c' a m
    → Absorbs c' c'' [] n
    → Absorbs c c'' a (m + n)
Absorbs-then {c} {a} p q = record {
  valid = q.valid;
  stored = q.stored ∙ rw (append-nil, p.stored);
  acked = omega (arith, p.acked, q.acked);
}

pub Absorbs-IsWord :
    {c c' : TcpConnection} {a : List ℕ} {n : ℕ}
    → Absorbs c c' a n
    → IsWord c'.tcb.acknowledgement_number
Absorbs-IsWord p = omega (arith, p.acked)

pub handle_payload-keeps :
    (bytes : List ℕ) (c : TcpConnection)
    → let c' = handle_payload bytes c in
      (c'.closed ≡ c.closed)
      × (c'.tcb.state ≡ c.tcb.state)
      × (c'.tcb.fin_sequence_number ≡ c.tcb.fin_sequence_number)
unfolding handle_payload send_empty_packet_to_client
handle_payload-keeps bytes c = ground arith
