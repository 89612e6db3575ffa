-- ===== src/Examples/Buffers.antt =====
-- The buffers at concrete inputs.
use gnirehtet.Base.{ℕ, ◌≡◌, ◌≤◌, arith, List, [], ◌∷◌, ◌++◌, length, take, ok, IoResult, ◌⊎◌, ◌<◌}
use gnirehtet.StreamBuffer
use gnirehtet.StreamBuffer.{StreamBuffer, read_from, write_to, source_slice}
use gnirehtet.StreamBuffer.Contents.{contents, IsValid}
use gnirehtet.StreamBuffer.Append.{contents-read_from}
use gnirehtet.StreamBuffer.Drain.{Drained, write_to-Drained, accepted}

-- Three bytes that run across the end of the cells.
abbrev wrapped : StreamBuffer
wrapped = record { buf = 3 ∷ 0 ∷ 0 ∷ 0 ∷ 1 ∷ 2 ∷ []; head = 1; tail = 4 }

wrapped-IsValid : IsValid wrapped
wrapped-IsValid = record { head_in = omega arith; tail_in = omega arith }

contents-read_from_example :
    contents (read_from wrapped (4 ∷ 5 ∷ [])) ≡ contents wrapped ++ (4 ∷ 5 ∷ [])
unfolding StreamBuffer.remaining StreamBuffer.capacity StreamBuffer.size
contents-read_from_example = contents-read_from wrapped (4 ∷ 5 ∷ []) wrapped-IsValid (omega arith)

-- A destination that takes at most one byte.
abbrev write_one : List ℕ → IoResult ℕ
write_one [] = ok 0
write_one (b ∷ bytes) = ok 1

write_one-few : (s : List ℕ) → accepted (write_one s) ≤ length s
write_one-few [] = omega arith
write_one-few (b ∷ bytes) = omega arith

write_to-Drained_example :
    Drained wrapped (write_to write_one wrapped).0 (write_to write_one wrapped).1
    × ((wrapped.head ≡ wrapped.tail) × ((write_to write_one wrapped).1 ≡ ok 0)
        ⊎ (0 < length (source_slice wrapped))
          × (source_slice wrapped ≡ take (length (source_slice wrapped)) (contents wrapped))
          × ((write_to write_one wrapped).1 ≡ write_one (source_slice wrapped)))
write_to-Drained_example = write_to-Drained write_one wrapped wrapped-IsValid write_one-few
