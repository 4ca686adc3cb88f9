-- ===== src/Tests/Sync.antt =====
-- The sync status over a read, an answer, an error and an answer of a stale tip.
use btcdwatch_com.Base.{◌≡◌, List, [], ◌∷◌, none, true}
use btcdwatch_com.Base.Action.{ok, err}
use btcdwatch_com.Node.{Error}
use btcdwatch_com.Sync.{new_sync}
use btcdwatch_com.Sync.Probes.{
  Event, asked, answered, after_events, last_answer, status_by, after_events-last_answer,
}

abbrev events : List Event
events =
    asked 1
    ∷ answered 2 (ok (7, 0))
    ∷ answered 3 (err Error.unavailable)
    ∷ answered 20000000000000 (ok (8, 1))
    ∷ []

after_events-last_answer_example :
    (after_events true (new_sync true) events).status
    ≡ status_by true (new_sync true).status (last_answer none events)
after_events-last_answer_example = after_events-last_answer true (new_sync true) events
