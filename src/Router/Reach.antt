-- ===== src/Router/Reach.antt =====
-- The routers that a client can meet: steps in any order from a new router.
use gnirehtet.Base.{ℕ, ◌≡◌, List, done, OnDone_at}
use gnirehtet.IpPacket.{IpPacket}
use gnirehtet.SharedBuffer.{SharedBuffer}
use gnirehtet.Connection.{ConnectionId, Moment, Connection}
use gnirehtet.Router.{
  Router, new, set_buffer, set_client_label, remove_flow, clear, send_to_network,
  clean_expired_connections, poll_connections,
}
use gnirehtet.Router.Keys.{
  IsValid, Valid, clear-IsValid, remove_flow-IsValid, send_to_network-IsValid,
  clean_expired_connections-IsValid, poll_connections-IsValid,
}

module _ {A C : Type 0} (ops : Connection A C) where
  -- One call, which returns. The buffer to the device changes between the calls too.
  pub data Step : Router C → Router C → Type 0 where
    registers : {r : Router C} → Step r (set_buffer r)
    labels : {r : Router C} (label : List ℕ) → Step r (set_client_label label r)
    routes :
        {r r' : Router C} (b b' : SharedBuffer) (m : Moment) (later : ℕ) (packet : IpPacket)
        → send_to_network ops m later packet b r ≡ done (b', r')
        → Step r r'
    polls :
        {r r' : Router C} (b b' : SharedBuffer) (answers : ConnectionId → A)
        (clock : ConnectionId → ℕ)
        → poll_connections ops answers clock b r ≡ done (b', r')
        → Step r r'
    cleans :
        {r : Router C} (now : ℕ) (clock : ConnectionId → ℕ)
        → Step r (clean_expired_connections ops now clock r)
    removes : {r : Router C} (now : ℕ) (id : ConnectionId) → Step r (remove_flow now id r)
    clears : {r : Router C} → Step r (clear r)

  pub data Reachable : Router C → Type 0 where
    starts : Reachable new
    steps : {r r' : Router C} → Reachable r → Step r r' → Reachable r'

  Step-IsValid : {r r' : Router C} → Step r r' → IsValid r → IsValid r'
  unfolding set_buffer set_client_label
  Step-IsValid registers v = record {
    unique = v.unique;
    unique_closed = v.unique_closed;
    apart = v.apart;
  }
  Step-IsValid (labels label) v = record {
    unique = v.unique;
    unique_closed = v.unique_closed;
    apart = v.apart;
  }
  Step-IsValid {r} (routes b b' m later packet e) v =
      OnDone_at Valid _ _ (send_to_network-IsValid ops m later packet b r v) e
  Step-IsValid {r} (polls b b' answers clock e) v =
      OnDone_at Valid _ _ (poll_connections-IsValid ops answers clock b r v) e
  Step-IsValid {r} (cleans now clock) v = clean_expired_connections-IsValid ops now clock r v
  Step-IsValid {r} (removes now id) v = remove_flow-IsValid now id r v
  Step-IsValid {r} clears v = clear-IsValid r

  -- In every router that calls in any order lead to from a new one, no id stands twice among the connections
  -- or twice among the recently closed, and no id of a connection is recently closed.
  pub Reachable-IsValid : (r : Router C) → Reachable r → IsValid r
  unfolding new
  Reachable-IsValid r starts = record { unique = tt; unique_closed = tt; apart = tt }
  Reachable-IsValid r (steps {r = r0} past step) = Step-IsValid step (Reachable-IsValid r0 past)
