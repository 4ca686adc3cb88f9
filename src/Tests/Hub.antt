-- ===== src/Tests/Hub.antt =====
-- The hub at a run of two clients: the first watches a transaction, the second leaves.
use btcdwatch_com.Base.{◌≡◌, refl, List, [], ◌∷◌, true, ◌&&◌, nat_eq, ℕ}
use btcdwatch_com.Base.Map.{elem, lookup, insert, include, remove}
use btcdwatch_com.Hub.{
  Hub, Event, done, register, unregister, command, new_hub, watched_of, step, handle, drop_client,
  remove_watchers, on_register, on_command, on_watch,
}
use btcdwatch_com.Hub.Shutdown.{run, until_done, run-done}

-- Transactions and blocks are numbers here.
abbrev joined : Hub ℕ
joined = (step (new_hub 2) (register 1)).0

abbrev both : Hub ℕ
both = (step joined (register 2)).0

abbrev watching : Hub ℕ
watching = (step both (command 1 true 7)).0

abbrev left : Hub ℕ
left = (step watching (unregister 2)).0

left_watched : (elem 1 left.clients && elem 7 (watched_of left.watched 1)) ≡ true
unfolding step handle drop_client on_register on_command on_watch remove_watchers new_hub lookup
    insert include remove elem
left_watched = refl

-- The second connection comes in and the loop is stopped; what comes behind is not seen.
abbrev day : List (Event ℕ)
day = register 1 ∷ register 2 ∷ command 1 true 7 ∷ unregister 2 ∷ done ∷ register 3 ∷ []

run-done_example :
    (run (new_hub 2) day ≡ run (new_hub 2) (until_done day))
    × ((run (new_hub 2) day).0.stopped ≡ true)
    × (elem 2 (run (new_hub 2) day).0.closed ≡ true)
run-done_example = run-done 2 day 2 refl refl
