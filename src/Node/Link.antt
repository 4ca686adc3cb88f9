-- ===== src/Node/Link.antt =====
-- internal/node/client.go: the client along the sessions of its connection. rpcclient connects again
-- by itself when a session is lost; a session starts without registrations.
use btcdwatch_com.Base.{◌≡◌, List, [], ◌∷◌, Bool, true, false, not, ◌&&◌, ◌||◌, arith}
use btcdwatch_com.Node.{Client, new_client, start, on_client_connected, is_available}

-- A session, with the registrations that the node has of it.
pub record Link : Type 0 where
  pub client : Client
  pub up : Bool
  pub blocks : Bool
  pub transactions : Bool

pub data LinkEvent : Type 0 where
  connected dropped : LinkEvent
  -- The goroutine of `onClientConnected`, by whether the two registrations succeed.
  registered : Bool → Bool → LinkEvent

abbrev pub new_link : Link
new_link = record { client = start new_client; up = false; blocks = false; transactions = false }

unfoldable pub link_step : Link → LinkEvent → Link
unfolding on_client_connected
link_step l connected = record l { up = true; blocks = false; transactions = false }
link_step l dropped = record l { up = false; blocks = false; transactions = false }
link_step l (registered b t) = record l {
  client = (on_client_connected l.client).0;
  blocks = l.up && b;
  transactions = l.up && t;
}

unfoldable pub link_steps : Link → List LinkEvent → Link
unfolding link_step
link_steps l [] = l
link_steps l (ev ∷ evs) = link_steps (link_step l ev) evs

-- `Connected`.
unfoldable pub is_connected : Link → Bool
unfolding is_available
is_connected l = is_available l.client (not l.up)

abbrev pub is_registered : LinkEvent → Bool
is_registered (registered b t) = true
is_registered _ = false

-- Whether the goroutine of some session has ended.
abbrev pub ever_registered : List LinkEvent → Bool
ever_registered [] = false
ever_registered (ev ∷ evs) = is_registered ev || ever_registered evs

-- Whether the connection is up in the end.
abbrev pub is_up : Bool → List LinkEvent → Bool
is_up up [] = up
is_up up (connected ∷ evs) = is_up true evs
is_up up (dropped ∷ evs) = is_up false evs
is_up up (registered b t ∷ evs) = is_up up evs

link_steps-is_connected :
    (l : Link) (evs : List LinkEvent)
    → is_connected (link_steps l evs) ≡ ((l.client.ready || ever_registered evs) && is_up l.up evs)
unfolding link_steps is_connected on_client_connected is_available
link_steps-is_connected l [] = ground arith
link_steps-is_connected l (connected ∷ evs) =
    ground (arith, link_steps-is_connected (link_step l connected) evs)
link_steps-is_connected l (dropped ∷ evs) =
    ground (arith, link_steps-is_connected (link_step l dropped) evs)
link_steps-is_connected l (registered b t ∷ evs) =
    ground (arith, link_steps-is_connected (link_step l (registered b t)) evs)

-- The client counts as connected exactly while a session is up, once the goroutine of any session has
-- ended: of an earlier one too, and whether or not its registrations succeeded.
pub is_connected-ever :
    (evs : List LinkEvent)
    → is_connected (link_steps new_link evs) ≡ (ever_registered evs && is_up false evs)
is_connected-ever evs = link_steps-is_connected new_link evs
