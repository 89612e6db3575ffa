-- ===== src/DnsCache/Hits.antt =====
-- What the cache answers.
use gnirehtet.Base.{
  ℕ, ◌+◌, ◌<◌, ◌≡◌, refl, sym, ap, ◌∙◌, subst, inl, inr, false, Bool-cases, lt→ltb, List, Option,
  none, some, Equality, get, get-remove_ne, IoResult, ok, would_block, failed,
}
use gnirehtet.DnsCache.{
  Cache, CacheEntry, cache_ttl, lookup, fresh, remember, forward, answered, serve, extract_dns_name,
}

-- The caches that any rounds of `run` at instants before `until` lead to, whatever is asked and answered.
pub data Rounds (same : Equality (List ℕ)) (lower : List ℕ → List ℕ) (until : ℕ) (cache : Cache)
    : Cache → Type 0 where
  no_round : Rounds same lower until cache cache
  round :
      {d : Cache} (now later : ℕ) (upstream : List ℕ → IoResult (List ℕ)) (query : List ℕ)
      → Rounds same lower until cache d
      → now < until
      → Rounds same lower until cache (serve same lower now later upstream query d).0

module _ (same : Equality (List ℕ)) (name : List ℕ) (entry : CacheEntry) where
  abbrev Holds : Cache → Type 0
  Holds d = get same name d ≡ some entry

  -- What is remembered under no name or another one does not touch the entry.
  remember-Holds :
      (later : ℕ) (asked : Option (List ℕ)) (response : List ℕ) (d : Cache)
      → ((n : List ℕ) → asked ≡ some n → same.eq name n ≡ false)
      → Holds d
      → Holds (remember same later asked response d)
  unfolding remember
  remember-Holds later none response d apart h = h
  remember-Holds later (some other) response d apart h =
      rw (apart other refl, get-remove_ne same name other d (apart other refl)) h

  module _ (lower : List ℕ → List ℕ) where
    forward-Holds :
        (later : ℕ) (query : List ℕ) (d : Cache) (answer : IoResult (List ℕ))
        → ((n : List ℕ) → extract_dns_name lower query ≡ some n → same.eq name n ≡ false)
        → Holds d
        → Holds (forward same lower later query d answer).0
    unfolding forward
    forward-Holds later query d (ok response) apart h =
        remember-Holds later (extract_dns_name lower query) response d apart h
    forward-Holds later query d would_block apart h = h
    forward-Holds later query d failed apart h = h

    answered-Holds :
        (later : ℕ) (upstream : List ℕ → IoResult (List ℕ)) (query : List ℕ) (d : Cache)
        (hit : Option (List ℕ))
        → ((n : List ℕ) → extract_dns_name lower query ≡ some n → same.eq name n ≡ false)
        → Holds d
        → Holds (answered same lower later upstream query d hit).0
    unfolding answered
    answered-Holds later upstream query d (some response) apart h = h
    answered-Holds later upstream query d none apart h =
        forward-Holds later query d (upstream query) apart h

    -- A query of the name itself is answered by the entry.
    hit_lem :
        (now later : ℕ) (upstream : List ℕ → IoResult (List ℕ)) (query : List ℕ) (d : Cache)
        → extract_dns_name lower query ≡ some name
        → now < entry.expires_at
        → Holds d
        → serve same lower now later upstream query d ≡ (d, some entry.response)
    unfolding serve answered lookup fresh
    hit_lem now later upstream query d e soon h = rw (e, h, lt→ltb now entry.expires_at soon) refl

    serve-Holds :
        (now later : ℕ) (upstream : List ℕ → IoResult (List ℕ)) (query : List ℕ) (d : Cache)
        (asked : Option (List ℕ))
        → extract_dns_name lower query ≡ asked
        → now < entry.expires_at
        → Holds d
        → Holds (serve same lower now later upstream query d).0
    unfolding serve
    serve-Holds now later upstream query d none e soon h =
        answered-Holds later upstream query d _ (λ n q. absurd (cc (e, q))) h
    serve-Holds now later upstream query d (some n) e soon h = elim (Bool-cases (same.eq name n)) [
      | inl hit ↦
          let named : extract_dns_name lower query ≡ some name =
            e ∙ ap some (sym ((same.eq_iff name n).0 hit)) in
          rw (hit_lem now later upstream query d named soon h) h
      | inr other ↦
          answered-Holds later upstream query d _
            (λ m q. subst (λ x. same.eq name x ≡ false) (cc (e, q)) other) h
    ]

    Rounds-Holds : {c d : Cache} → Rounds same lower entry.expires_at c d → Holds c → Holds d
    Rounds-Holds no_round h = h
    Rounds-Holds (round {d} now later upstream query before soon) h =
        serve-Holds now later upstream query d _ refl soon (Rounds-Holds before h)

-- Let no entry answer a query, and let the upstream server answer it at `later`. Then, after any rounds of
-- queries of any names at instants before sixty seconds have passed, every query of the same name before
-- then gets the very bytes of that answer, whatever identifier and type of record it asks for; the upstream
-- server is not asked and the cache stays as it is.
pub serve_again :
    (same : Equality (List ℕ)) (lower : List ℕ → List ℕ) (cache cache' : Cache)
    (now later now' later' : ℕ) (upstream upstream' : List ℕ → IoResult (List ℕ))
    (query query' name response : List ℕ)
    → extract_dns_name lower query ≡ some name
    → extract_dns_name lower query' ≡ some name
    → fresh now (lookup same (some name) cache) ≡ none
    → upstream query ≡ ok response
    → Rounds same lower
        (later + cache_ttl)
        (serve same lower now later upstream query cache).0
        cache'
    → now' < later + cache_ttl
    → serve same lower now' later' upstream' query' cache' ≡ (cache', some response)
serve_again same lower cache cache' now later now' later' upstream upstream' query query' name
      response e e' miss answers rounds soon =
    let entry : CacheEntry = record { response = response; expires_at = later + cache_ttl } in
    let first : get same name (serve same lower now later upstream query cache).0 ≡ some entry =
      unfold serve answered forward remember in
      rw (e, miss, answers, forward, e, (same.eq_iff name name).1 refl) refl in
    hit_lem same name entry lower now' later' upstream' query' cache' e' soon
      (Rounds-Holds same name entry lower rounds first)
