-- ===== src/Examples/Device.antt =====
-- What goes to the device, and the name cache, at concrete inputs.
use gnirehtet.Base.{
  ℕ, ℕ_discrete, Equality, none, false, ◌%◌, ◌≤◌, ◌≡◌, refl, arith, List, [], ◌∷◌, ◌++◌, some, take,
  drop, length, replicate, read_u16, IsBytes, IoResult, ok, done,
}
use gnirehtet.StreamBuffer
use gnirehtet.StreamBuffer.Contents.{new-IsValid, contents}
use gnirehtet.StreamBuffer.Drain.{accepted}
use gnirehtet.SharedBuffer
use gnirehtet.SharedBuffer.{SharedBuffer}
use gnirehtet.Client.{Outgoing, Iteration, flush}
use gnirehtet.Client.Flush.{IsReady, Flushes, waiting, flush_lem, send_raw_to_client-IsReady}
use gnirehtet.Icmp.{build_echo_reply, reply_of}
use gnirehtet.Icmp.Reply.{build_echo_reply-word_sum}
use gnirehtet.Checksum.Sums.{word_sum}
use gnirehtet.Connection.Identity.{is_yes, is_yes_iff}
use gnirehtet.DnsCache.{Cache, extract_dns_name, join, fresh, lookup, serve}
use gnirehtet.DnsCache.Hits.{no_round, round, serve_again}
use gnirehtet.DnsCache.Names.{encode, extract_dns_name-encode}

abbrev empty_buffer : SharedBuffer
empty_buffer = record { stream = StreamBuffer.new 100; borrowed = false }

-- Three bytes are pending, and two more wait in the buffer.
abbrev outgoing : Outgoing
outgoing = record {
  buffer = (SharedBuffer.send_raw_to_client empty_buffer (4 ∷ 5 ∷ [])).0;
  pending = 1 ∷ 2 ∷ 3 ∷ [];
}

empty-IsReady : IsReady empty_buffer
unfolding StreamBuffer.new
empty-IsReady = record { valid = new-IsValid 100; at_start = refl; free = refl }

outgoing-IsReady : IsReady outgoing.buffer
outgoing-IsReady = send_raw_to_client-IsReady empty_buffer empty-IsReady (4 ∷ 5 ∷ [])

-- A socket that takes two bytes at most.
abbrev two : List ℕ → IoResult ℕ
two [] = ok 0
two (x ∷ []) = ok 1
two (x ∷ y ∷ rest) = ok 2

two_honest : (s : List ℕ) → accepted (two s) ≤ length s
two_honest [] = omega arith
two_honest (x ∷ []) = omega arith
two_honest (x ∷ y ∷ rest) = omega arith

flush_lem_example :
    (i : Iteration) × ((b : SharedBuffer) × ((flush two outgoing ≡ done i)
        × IsReady b
        × (contents b.stream ≡ [])
        × Flushes two b (waiting outgoing) i))
flush_lem_example = flush_lem two outgoing outgoing-IsReady two_honest

-- An echo request from 10.0.0.2 to 8.8.8.8 without data.
abbrev request : List ℕ
request =
    0x45 ∷ 0 ∷ 0 ∷ 28 ∷ 0 ∷ 0 ∷ 0 ∷ 0 ∷ 64 ∷ 1 ∷ 0 ∷ 0 ∷ 10 ∷ 0 ∷ 0 ∷ 2 ∷ 8 ∷ 8 ∷ 8 ∷ 8 ∷ 8 ∷ 0 ∷ 0
    ∷ 0 ∷ 0x12 ∷ 0x34 ∷ 0 ∷ 1 ∷ []

request_replied : build_echo_reply request ≡ some (reply_of 20 request)
unfolding build_echo_reply read_u16
request_replied = refl

request-IsBytes : IsBytes request
request-IsBytes = omega arith

build_echo_reply-word_sum_example :
    (length (reply_of 20 request) ≡ 28)
    × (word_sum (take 20 (reply_of 20 request)) % 0xffff ≡ 0)
    × (word_sum (drop 20 (reply_of 20 request)) % 0xffff ≡ 0)
unfolding read_u16
build_echo_reply-word_sum_example =
    build_echo_reply-word_sum request (reply_of 20 request) request-IsBytes request_replied

-- "ab.c"
extract_dns_name-encode_example :
    extract_dns_name
      (λ l. l)
      (replicate 12 0 ++ (encode ((97 ∷ 98 ∷ []) ∷ (99 ∷ []) ∷ []) ++ (0 ∷ 1 ∷ 0 ∷ 1 ∷ [])))
    ≡ some (join (λ l. l) ((97 ∷ 98 ∷ []) ∷ (99 ∷ []) ∷ []))
extract_dns_name-encode_example =
    extract_dns_name-encode (λ l. l) (replicate 12 0) (97 ∷ 98 ∷ []) (0 ∷ 1 ∷ 0 ∷ 1 ∷ [])
      ((99 ∷ []) ∷ []) refl (omega arith)

ListDiscrete : Discrete (List ℕ)
ListDiscrete = hlevel ℕ_discrete

abbrev same_name : Equality (List ℕ)
same_name = record {
  eq = λ a b. is_yes (ListDiscrete a b);
  eq_iff = λ a b. is_yes_iff (ListDiscrete a b);
}

abbrev name : List ℕ
name = join (λ l. l) ((97 ∷ 98 ∷ []) ∷ (99 ∷ []) ∷ [])

-- A query of the name with an identifier and a type of record.
abbrev query : ℕ → ℕ → List ℕ
query id type =
    id ∷ replicate 11 0 ++ (encode ((97 ∷ 98 ∷ []) ∷ (99 ∷ []) ∷ []) ++ (0 ∷ type ∷ 0 ∷ 1 ∷ []))

query_named : (id type : ℕ) → extract_dns_name (λ l. l) (query id type) ≡ some name
query_named id type =
    extract_dns_name-encode (λ l. l) (id ∷ replicate 11 0) (97 ∷ 98 ∷ []) (0 ∷ type ∷ 0 ∷ 1 ∷ [])
      ((99 ∷ []) ∷ []) refl (omega arith)

nothing_cached : fresh 0 (lookup same_name (some name) []) ≡ none
unfolding fresh lookup
nothing_cached = refl

-- A query of the name "x".
abbrev other_query : List ℕ
other_query = replicate 12 0 ++ (encode ((120 ∷ []) ∷ []) ++ (0 ∷ 1 ∷ 0 ∷ 1 ∷ []))

abbrev first_cache : Cache
first_cache = (serve same_name (λ l. l) 0 5 (λ _. ok (7 ∷ 1 ∷ [])) (query 7 1) []).0

-- The other name is asked and answered in between.
abbrev next_cache : Cache
next_cache = (serve same_name (λ l. l) 500 600 (λ _. ok (9 ∷ 9 ∷ [])) other_query first_cache).0

serve_again_example :
    serve same_name (λ l. l) 1000 2000 (λ _. ok []) (query 8 28) next_cache
    ≡ (next_cache, some (7 ∷ 1 ∷ []))
serve_again_example =
    serve_again same_name (λ l. l) [] next_cache 0 5 1000 2000 (λ _. ok (7 ∷ 1 ∷ [])) (λ _. ok [])
      (query 7 1) (query 8 28) name (7 ∷ 1 ∷ []) (query_named 7 1) (query_named 8 28) nothing_cached
      refl (round 500 600 (λ _. ok (9 ∷ 9 ∷ [])) other_query no_round (omega arith)) (omega arith)
