-- ===== src/Relay.antt =====
-- relay-rust/src/relay/relay.rs: the relay of the forward mode, which connects to the device's client. What each attempt to
-- connect gives, with the instant at which the clock is read after a refusal, and how long each client lasts are arguments.
-- Instants and durations are in milliseconds.
pub mod Forward
use gnirehtet.Base.{
  ℕ, zero, suc, ◌+◌, ◌-◌, ◌*◌, ◌^◌, Bool, true, false, List, [], ◌∷◌, ltb, leb, min, if◌then◌else◌,
}

-- An attempt that connects, or that is refused, after which it is this instant.
pub data Attempt : Type 0 where
  connects : Attempt
  refused_at : ℕ → Attempt

-- `tries` asks for another attempt.
pub data Connected : Type 0 where
  connected timed_out tries : Connected

abbrev pub deadline_after : ℕ
deadline_after = 20 * 1000

abbrev pub retry_delay : ℕ
retry_delay = 500

unfoldable pub connect_until : ℕ → List Attempt → Connected
connect_until deadline [] = tries
connect_until deadline (connects ∷ more) = connected
connect_until deadline (refused_at now ∷ more) =
    let rest = connect_until deadline more in if leb deadline now then timed_out else rest

-- `connect_forward`, from the instant at which it is called.
unfoldable pub connect_forward : ℕ → List Attempt → Connected
unfolding connect_until
connect_forward start attempts = connect_until (start + deadline_after) attempts

-- What the loop of `run_forward` makes of the number of consecutive probes when a client ends: the new number, and the pause.
unfoldable pub after_client : ℕ → ℕ → ℕ × ℕ
after_client probes duration =
    if ltb duration 500
    then (min (probes + 1) (2 ^ 32 - 1), 500 * 2 ^ min (min (probes + 1) (2 ^ 32 - 1)) 3)
    else (0, 500)

-- The pauses of `run_forward` between clients of these durations.
unfoldable pub pauses : ℕ → List ℕ → List ℕ
unfolding after_client
pauses probes [] = []
pauses probes (duration ∷ more) =
    let (probes', pause) = after_client probes duration in pause ∷ pauses probes' more
