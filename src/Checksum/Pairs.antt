-- ===== src/Checksum/Pairs.antt =====
-- The unrolled loops of the TCP checksum against the sum of the words.
use gnirehtet.Base.{ℕ, ◌+◌, ◌*◌, ◌%◌, ◌^◌, ◌<◌, ◌≡◌, arith, List, length, IsBytes, u32}
use gnirehtet.Checksum.{sum_pairs, close_sum}
use gnirehtet.Checksum.Fold.{not16-fold}
use gnirehtet.Checksum.Sums.{word_sum, sum_pairs-eq}

close_sum-completes :
    (hsum sum : ℕ)
    → hsum * 256 + sum < 2 ^ 32
    → (hsum * 256 + sum + close_sum (hsum, sum)) % 0xffff ≡ 0
unfolding close_sum
close_sum-completes hsum sum fits =
    let same : u32 (sum + u32 (hsum * 2 ^ 8)) ≡ hsum * 256 + sum = omega arith in
    omega (arith, same, not16-fold (u32 (sum + u32 (hsum * 2 ^ 8))) (omega arith))

-- What the loops over the header and then over the payload make of a pseudo-header's sum below 2 ^ 20
-- completes it and the words of both, each padded by zero to whole words, to a multiple of 2 ^ 16 - 1,
-- for fewer than 2 ^ 8 bytes of header and 2 ^ 16 of payload.
pub close_sum-word_sum :
    (pseudo : ℕ) (header payload : List ℕ)
    → pseudo < 2 ^ 20
    → IsBytes header
    → IsBytes payload
    → length header < 2 ^ 8
    → length payload < 2 ^ 16
    → (pseudo
          + word_sum header
          + word_sum payload
          + close_sum (sum_pairs (sum_pairs (0, pseudo) header) payload))
        % 0xffff
      ≡ 0
close_sum-word_sum pseudo header payload small h p few few' =
    let first = sum_pairs-eq 0 pseudo header h (omega arith) (omega arith) in
    let (hsum, sum) = sum_pairs (0, pseudo) header in
    let second = sum_pairs-eq hsum sum payload p (omega (arith, first)) (omega (arith, first)) in
    let (hsum', sum') = sum_pairs (hsum, sum) payload in
    omega (arith, first, second, close_sum-completes hsum' sum' (omega (arith, first, second)))
