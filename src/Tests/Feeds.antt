-- ===== src/Tests/Feeds.antt =====
-- The link to the node over two sessions, the quote over a day, and two paths of the pages.
use btcdwatch_com.Base.{◌≡◌, refl, List, [], ◌∷◌, some, true, false, ◌&&◌}
use btcdwatch_com.Node.{is_available, on_client_connected}
use btcdwatch_com.Node.Link.{
  LinkEvent, connected, dropped, registered, link_step, link_steps, new_link, is_connected,
  ever_registered, is_up, is_connected-ever,
}
use btcdwatch_com.Price.{Turn, ticked, closed, response}
use btcdwatch_com.Tests.Doubles.{milli}

-- The second session is up, and its registrations are still to come.
abbrev sessions : List LinkEvent
sessions = connected ∷ registered true true ∷ dropped ∷ connected ∷ []

is_connected-ever_example :
    is_connected (link_steps new_link sessions) ≡ (ever_registered sessions && is_up false sessions)
is_connected-ever_example = is_connected-ever sessions

between_sessions :
    (is_connected (link_steps new_link sessions) ≡ true)
    × ((link_steps new_link sessions).blocks ≡ false)
unfolding is_connected link_steps link_step is_available on_client_connected
between_sessions = (refl, refl)

-- A failed fetch, a usable one, one without a price, and one that comes too late.
abbrev day : List (Turn milli)
day =
    ticked (response 200 (some 97000000)) 70
    ∷ ticked (response 200 (some 0)) 130
    ∷ ticked (response 429 (some 1000)) 190
    ∷ closed
    ∷ ticked (response 200 (some 1000)) 250
    ∷ []
