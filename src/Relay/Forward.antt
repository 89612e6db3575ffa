-- ===== src/Relay/Forward.antt =====
-- How long the relay of the forward mode waits.
use gnirehtet.Base.{
  ℕ, zero, suc, ◌+◌, ◌-◌, ◌*◌, ◌^◌, ◌<◌, ◌≤◌, ◌≡◌, ◌≢◌, refl, arith, List, [], ◌∷◌, min, lt→ltb,
  le→leb, lt→leb, length, ap, dec_lt, le→ltb,
}
use gnirehtet.Relay.{
  Attempt, connects, refused_at, tries, retry_delay, deadline_after, connect_until, connect_forward,
  after_client, pauses,
}

-- The attempts start at an instant, and each refusal is followed by the pause before the next attempt.
abbrev pub ArePaced : ℕ → List Attempt → Type 0
ArePaced now [] = Unit {0}
ArePaced now (connects ∷ more) = Unit {0}
ArePaced now (refused_at later ∷ more) = (now ≤ later) × ArePaced (later + retry_delay) more

connect_until_ends :
    (deadline now : ℕ) (attempts : List Attempt)
    → ArePaced now attempts
    → deadline + retry_delay ≤ now + retry_delay * length attempts
    → 0 < length attempts
    → connect_until deadline attempts ≢ tries
unfolding connect_until
connect_until_ends deadline now [] paced long some_ = λ e. absurd (omega arith)
connect_until_ends deadline now (connects ∷ more) paced long some_ = λ e. cc
connect_until_ends deadline now (refused_at later ∷ more) (after, paced) long some_ =
    elim (dec_lt later deadline) [
      | no late ↦ rw (le→leb deadline later (omega arith)) (λ e. cc)
      | yes early ↦
          rw (lt→leb deadline later early) (
            connect_until_ends deadline (later + retry_delay) more paced (omega arith)
              (omega arith))
    ]

-- However the attempts go, the connection is made or given up after 41 attempts at most.
pub connect_forward_ends :
    (start : ℕ) (attempts : List Attempt)
    → ArePaced start attempts
    → 41 ≤ length attempts
    → connect_forward start attempts ≢ tries
unfolding connect_forward
connect_forward_ends start attempts paced enough =
    connect_until_ends (start + deadline_after) start attempts paced (omega arith) (omega arith)

-- Clients that end within 500 ms.
abbrev pub AreProbes : List ℕ → Type 0
AreProbes [] = Unit {0}
AreProbes (d ∷ ds) = (d < 500) × AreProbes ds

-- From the first on: one second, two, then four.
abbrev pub backoff : ℕ → ℕ
backoff zero = 1000
backoff (suc zero) = 2000
backoff (suc (suc n)) = 4000

abbrev pub backoffs : ℕ → List ℕ → List ℕ
backoffs n [] = []
backoffs n (d ∷ ds) = backoff n ∷ backoffs (suc n) ds

doubled : (n : ℕ) → n + 1 < 2 ^ 32 → 500 * 2 ^ min (min (n + 1) (2 ^ 32 - 1)) 3 ≡ backoff n
doubled zero few = refl
doubled (suc zero) few = refl
doubled (suc (suc n)) few =
    ap (λ k. 500 * 2 ^ k) {x = min (min (suc (suc n) + 1) (2 ^ 32 - 1)) 3} {y = 3} (omega arith)

counted : (n : ℕ) → n + 1 < 2 ^ 32 → min (n + 1) (2 ^ 32 - 1) ≡ suc n
counted n few = omega arith

after_probe : (n d : ℕ) → d < 500 → n + 1 < 2 ^ 32 → after_client n d ≡ (suc n, backoff n)
unfolding after_client
after_probe n d short few = rw (lt→ltb d 500 short, doubled n few, counted n few) refl

pauses_from :
    (n : ℕ) (ds : List ℕ) → AreProbes ds → n + length ds + 1 < 2 ^ 32 → pauses n ds ≡ backoffs n ds
unfolding pauses
pauses_from n [] probes few = refl
pauses_from n (d ∷ ds) (short, probes) few =
    rw (after_probe n d short (omega arith))
      (ap (◌∷◌ (backoff n)) (pauses_from (suc n) ds probes (omega arith)))

-- After a client that lasted for 500 ms or more the relay waits for 500 ms, and after the clients that end sooner, fewer
-- than 2^32 - 1 in a row, for one second, two, and then four each.
pub pauses-backoffs :
    (probes real : ℕ) (ds : List ℕ)
    → 500 ≤ real
    → AreProbes ds
    → length ds + 1 < 2 ^ 32
    → pauses probes (real ∷ ds) ≡ 500 ∷ backoffs 0 ds
unfolding pauses after_client
pauses-backoffs probes real ds long short few =
    rw (le→ltb real 500 long) (ap (◌∷◌ 500) (pauses_from 0 ds short (omega arith)))
