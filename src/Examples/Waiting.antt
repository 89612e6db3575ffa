-- ===== src/Examples/Waiting.antt =====
-- The waits of the relay's forward mode at concrete inputs.
use gnirehtet.Base.{ℕ, ◌≡◌, ◌≢◌, arith, zero, suc, ◌+◌, List, [], ◌∷◌}
use gnirehtet.Relay.{Attempt, refused_at, tries, retry_delay, connect_forward, pauses}
use gnirehtet.Relay.Forward.{ArePaced, backoffs, connect_forward_ends, pauses-backoffs}

-- A refusal every 500 ms, from an instant.
abbrev refusals : ℕ → ℕ → List Attempt
refusals zero now = []
refusals (suc n) now = refused_at now ∷ refusals n (now + retry_delay)

refusals-ArePaced : (n now : ℕ) → ArePaced now (refusals n now)
refusals-ArePaced zero now = tt
refusals-ArePaced (suc n) now = (omega arith, refusals-ArePaced n (now + retry_delay))

connect_forward_ends_example : connect_forward 7 (refusals 41 7) ≢ tries
connect_forward_ends_example =
    connect_forward_ends 7 (refusals 41 7) (refusals-ArePaced 41 7) (omega arith)

abbrev probes : List ℕ
probes = 3 ∷ 499 ∷ 20 ∷ 0 ∷ []

pauses-backoffs_example : pauses 2 (60000 ∷ probes) ≡ 500 ∷ backoffs 0 probes
pauses-backoffs_example =
    pauses-backoffs 2 60000 probes (omega arith)
      (omega arith, (omega arith, (omega arith, (omega arith, tt)))) (omega arith)
