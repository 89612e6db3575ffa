-- ===== src/DatagramBuffer/Queue.antt =====
-- The datagram buffer as a queue of datagrams, oldest first.
use gnirehtet.Base.{
  ℕ, ◌+◌, ◌≤◌, ◌<◌, ◌≡◌, ◌⊎◌, inl, refl, arith, List, [], ◌∷◌, ◌++◌, length, length-append,
  length-replicate, slice,
}
use gnirehtet.DatagramBuffer.{DatagramBuffer, new, max_block_length, wrapped}
use gnirehtet.DatagramBuffer.Layout.{block, encode}

-- Both indices are in the circular part, behind which there is room for one more datagram.
pub record IsValid (b : DatagramBuffer) : Type 0 where
  pub head_in : b.head < b.circular_buffer_length
  pub tail_in : b.tail < b.circular_buffer_length
  pub room : length b.buf + 1 ≡ b.circular_buffer_length + max_block_length

pub new-IsValid : (n : ℕ) → IsValid (new n)
unfolding new
new-IsValid n = record {
  head_in = omega arith;
  tail_in = omega arith;
  room = omega (arith, length-replicate {A = ℕ} (n + max_block_length) 0);
}

-- Every datagram starts in the circular part.
abbrev pub StartsBelow : ℕ → ℕ → List (List ℕ) → Type 0
StartsBelow lo limit [] = Unit {0}
StartsBelow lo limit (d ∷ ds) = (lo < limit) × StartsBelow (lo + length (block d)) limit ds

pub StartsBelow-last :
    (lo limit : ℕ) (ds : List (List ℕ)) (d : List ℕ)
    → lo + length (encode ds) < limit
    → StartsBelow lo limit (ds ++ (d ∷ []))
StartsBelow-last lo limit [] d h = (omega arith, tt)
StartsBelow-last lo limit (d' ∷ ds) d h =
    let sizes = length-append (block d') (encode ds) in
    (omega arith, StartsBelow-last (lo + length (block d')) limit ds d (omega (arith, sizes)))

-- The datagrams stand in one piece, or run over the end of the circular part.
pub record Flat (b : DatagramBuffer) (ds : List (List ℕ)) : Type 0 where
  pub low : b.tail ≤ b.head
  pub bytes : slice b.tail b.head b.buf ≡ encode ds

pub record Split (b : DatagramBuffer) (ds : List (List ℕ)) : Type 0 where
  pub high : b.head < b.tail
  pub older : List (List ℕ)
  pub newer : List (List ℕ)
  pub parts : ds ≡ older ++ newer
  pub top : ℕ
  pub top_high : b.circular_buffer_length ≤ top
  pub top_in : top ≤ length b.buf
  pub starts : StartsBelow b.tail b.circular_buffer_length older
  pub older_bytes : slice b.tail top b.buf ≡ encode older
  pub newer_bytes : slice 0 b.head b.buf ≡ encode newer

abbrev pub Holds : DatagramBuffer → List (List ℕ) → Type 0
Holds b ds = Flat b ds ⊎ Split b ds

pub new-Holds : (n : ℕ) → Holds (new n) []
unfolding new
new-Holds n = inl (record { low = omega arith; bytes = refl })

pub wrapped_below : (limit i : ℕ) → i < limit → wrapped limit i ≡ i
unfolding wrapped
wrapped_below limit i h = ground arith

pub wrapped_above : (limit i : ℕ) → limit ≤ i → wrapped limit i ≡ 0
unfolding wrapped
wrapped_above limit i h = ground arith
