-- ===== src/DnsCache.antt =====
-- relay-rust/src/relay/dns_cache.rs: the name of a query, and the cache that is looked up by it. Instants are
-- nanoseconds; the socket's answers are arguments. `lower` stands for `String::from_utf8_lossy` and
-- `to_lowercase` on the bytes of a label.
pub mod Names
pub mod Hits
use gnirehtet.Base.{
  ℕ, zero, suc, ◌+◌, ◌*◌, ◌^◌, Bool, true, false, List, [], ◌∷◌, ◌++◌, Option, none, some, length,
  slice, ltb, leb, ◌==◌, if◌then◌else◌, byte_at, bit_and, Equality, get, insert, IoResult, ok,
  would_block, failed,
}

-- Sixty seconds.
abbrev pub cache_ttl : ℕ
cache_ttl = 60 * 10 ^ 9

pub record CacheEntry : Type 0 where
  pub response : List ℕ
  pub expires_at : ℕ

abbrev pub Cache : Type 0
Cache = List (List ℕ × CacheEntry)

unfoldable pub with_label : List ℕ → Option (List (List ℕ)) → Option (List (List ℕ))
with_label l none = none
with_label l (some ls) = some (l ∷ ls)

-- The loop over the labels of the name, from `offset` on; `none` where the packet is too short.
unfoldable pub labels : ℕ → ℕ → List ℕ → Option (List (List ℕ))
unfolding with_label
labels zero offset packet = none
labels (suc fuel) offset packet =
    let len = byte_at offset packet in
    let rest = labels fuel (offset + 1 + len) packet in
    if leb (length packet) offset
    then none
    else if len == 0
    then some []
    else if bit_and len 0xc0 == 0xc0
    then some []
    else if ltb (length packet) (offset + 1 + len)
    then none
    else with_label (slice (offset + 1) (offset + 1 + len) packet) rest

-- Every round but the last moves on by two bytes or more.
unfoldable pub label_fuel : List ℕ → ℕ
label_fuel packet = length packet + 1

-- `labels.join(".")`, of at least one label.
unfoldable pub join : (List ℕ → List ℕ) → List (List ℕ) → List ℕ
join lower [] = []
join lower (l ∷ []) = lower l
join lower (l ∷ l' ∷ ls) = lower l ++ (46 ∷ join lower (l' ∷ ls))

unfoldable pub named : (List ℕ → List ℕ) → Option (List (List ℕ)) → Option (List ℕ)
named lower none = none
named lower (some []) = none
named lower (some (l ∷ ls)) = some (join lower (l ∷ ls))

unfoldable pub extract_dns_name : (List ℕ → List ℕ) → List ℕ → Option (List ℕ)
unfolding labels named join label_fuel
extract_dns_name lower packet =
    if ltb (length packet) 12 then none else named lower (labels (label_fuel packet) 12 packet)

-- An entry answers while it has not expired.
unfoldable pub fresh : ℕ → Option CacheEntry → Option (List ℕ)
fresh now none = none
fresh now (some e) = if ltb now e.expires_at then some e.response else none

module _ (same : Equality (List ℕ)) where
  unfoldable pub lookup : Option (List ℕ) → Cache → Option CacheEntry
  lookup none cache = none
  lookup (some name) cache = get same name cache

  unfoldable pub remember : ℕ → Option (List ℕ) → List ℕ → Cache → Cache
  remember now none response cache = cache
  remember now (some name) response cache =
      insert same name (record { response = response; expires_at = now + cache_ttl }) cache

module _ (same : Equality (List ℕ)) (lower : List ℕ → List ℕ) where
  -- A query that no entry answers: the upstream server is asked.
  unfoldable pub forward : ℕ → List ℕ → Cache → IoResult (List ℕ) → Cache × Option (List ℕ)
  forward later query cache (ok response) =
      (remember same later (extract_dns_name lower query) response cache, some response)
  forward later query cache would_block = (cache, none)
  forward later query cache failed = (cache, none)

  unfoldable pub answered :
      ℕ → (List ℕ → IoResult (List ℕ)) → List ℕ → Cache → Option (List ℕ) → Cache × Option (List ℕ)
  answered later upstream query cache (some response) = (cache, some response)
  answered later upstream query cache none = forward later query cache (upstream query)

  -- One round of `run`: a query at `now`, whose answer from upstream comes at `later`. The result is what
  -- goes back to the client, if anything does.
  unfoldable pub serve :
      ℕ → ℕ → (List ℕ → IoResult (List ℕ)) → List ℕ → Cache → Cache × Option (List ℕ)
  serve now later upstream query cache =
      answered later upstream query cache
        (fresh now (lookup same (extract_dns_name lower query) cache))
