-- ===== src/Examples/Loop.antt =====
-- The client's loop at concrete inputs.
use gnirehtet.Base.{◌≡◌, refl, false, [], ◌∷◌, Every, would_block, done}
use gnirehtet.Connection.Flow
use gnirehtet.Connection.Flow.{Flow, FlowAnswers, flow}
use gnirehtet.Router
use gnirehtet.Router.Keys.{IsValid}
use gnirehtet.SharedBuffer
use gnirehtet.StreamBuffer
use gnirehtet.Client
use gnirehtet.Client.Loop
use gnirehtet.Client.Loop.{Loop, Turn, continues, create, iteration}
use gnirehtet.Client.Runs.{begins, turns, Runs-IsValid}
use gnirehtet.Examples.Routing.{ops, socket}

-- Nothing comes in ten seconds, and the device takes nothing.
abbrev quiet : Turn FlowAnswers
quiet = record {
  read = would_block;
  moments = λ i. (record { now = 0; random = 0 }, 0);
  first_answers = λ _. socket;
  first_clock = λ _. 8;
  answers = λ _. socket;
  clock = λ _. 8;
  now = 10000000000;
  clean_clock = λ _. 8;
  write = λ _. would_block;
}

abbrev first : Loop Flow
first = record { client = create (b'1' ∷ []); last_cleanup = 0; pending_outgoing = [] }

abbrev second : Loop Flow
second = record first { last_cleanup = 10000000000 }

quiet_turn : iteration ops 5 quiet first ≡ done (continues second false)
unfolding iteration Loop.after_read Loop.finish Loop.cleaned Loop.flush_turn Loop.flushed
    Loop.poll_network_connections create Router.poll_connections Router.poll_all Router.new
    Router.clean_expired_connections Router.expired_ids Router.evict_all Router.set_buffer
    Router.set_client_label Client.flush Client.queued Client.offer Client.drain_outgoing
    SharedBuffer.send_raw_to_client StreamBuffer.new StreamBuffer.is_empty StreamBuffer.size
quiet_turn = refl

Runs-IsValid_example :
    IsValid second.client.router
    × (second.client.closed ≡ false)
    × Every (λ k c. Flow.is_closed c ≡ false) second.client.router.connections
unfolding flow
Runs-IsValid_example = Runs-IsValid ops second (turns 5 quiet (begins (b'1' ∷ []) 0) quiet_turn)
