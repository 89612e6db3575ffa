-- ===== src/DatagramBuffer/Trip.antt =====
-- A datagram through an empty buffer.
use gnirehtet.Base.{ℕ, ◌+◌, ◌^◌, ◌<◌, ◌≡◌, true, List, [], length, IoResult, ok, done}
use gnirehtet.DatagramBuffer.{DatagramBuffer, has_enough_space_for, sent, read_from, write_to}
use gnirehtet.DatagramBuffer.Queue.{IsValid, Holds}
use gnirehtet.DatagramBuffer.Store.{read_from-Holds}
use gnirehtet.DatagramBuffer.Take.{write_to-Holds}

-- Let the buffer be valid and hold no datagram. A datagram of fewer than 2 ^ 16 bytes that has enough space, and
-- does not end the circular part while the tail is at its start, is taken, and the next write sends exactly its
-- bytes and leaves a valid buffer that holds no datagram.
pub read_from-write_to :
    (b : DatagramBuffer) (d : List ℕ) (send : List ℕ → IoResult ℕ)
    → IsValid b
    → Holds b []
    → length d < 2 ^ 16
    → has_enough_space_for (length d) b ≡ true
    → (b.tail ≡ 0 → b.head + 2 + length d < b.circular_buffer_length)
    → (full : DatagramBuffer) × ((empty : DatagramBuffer) × ((read_from d b ≡ done (full, ok tt))
          × (write_to send full ≡ done (empty, sent (length d) (send d)))
          × IsValid empty
          × Holds empty []))
read_from-write_to b d send v h few space clear =
    let (full, stores, v', h') = read_from-Holds b d v few [] h space clear in
    let (empty, takes, v'', h'') = write_to-Holds full d [] v' few send h' in
    (full, (empty, (stores, takes, v'', h'')))
