-- ===== src/Hub.antt =====
-- internal/api/hub.go: the event loop that owns the clients and their watch registrations. A client
-- is the number of its connection; transaction ids and block hashes are of one type with equality.
-- `watched` holds each connection's own set, `closed` the connections that were shut down, and
-- `pending_block` and `pending_mempool` are the two buffered channels of size one. A detached
-- `go h.push…(…)` is a push in the output of the step, with the clients that it was given.
pub mod Watchers
pub mod Agreement
pub mod Invariant
pub mod Others
pub mod Shutdown
pub mod Pushes
use btcdwatch_com.Base.{
  ℕ, ◌+◌, List, [], ◌∷◌, ◌++◌, map, Option, none, some, Bool, true, false, not, ◌&&◌, if◌then◌else◌,
  ltb, leb, ◌==◌, length, Eq, nat_eq,
}
use btcdwatch_com.Base.Map.{elem, remove, include, lookup, insert, delete}

abbrev pub max_watched_per_client : ℕ
max_watched_per_client = 32

pub record Hub (T : Type 0) : Type 0 where
  -- 0 is no limit.
  pub max_clients : ℕ
  pub clients : List ℕ
  pub watchers : List (T × List ℕ)
  pub watched : List (ℕ × List T)
  pub closed : List ℕ
  pub mempool_dirty : Bool
  pub logged_clients : ℕ
  pub pending_block : Option T
  pub pending_mempool : Bool
  pub stopped : Bool

pub data Push (T : Type 0) : Type 0 where
  push_stats : List ℕ → Push T
  push_mempool : List ℕ → Push T
  push_block_flash : T → List ℕ → Push T
  push_tx : T → List ℕ → Push T

-- What the loop's `select` takes next.
pub data Event (T : Type 0) : Type 0 where
  done : Event T
  register : ℕ → Event T
  unregister : ℕ → Event T
  command : ℕ → Bool → T → Event T
  block : Event T
  mempool : Event T
  mempool_tick : Event T
  tick : Event T
  log_tick : Event T

abbrev pub null {ℓ} : {A : Type ℓ} → List A → Bool
null [] = true
null (x ∷ xs) = false

-- A key that is not there reads as the empty set.
abbrev pub set_or {ℓ} : {A : Type ℓ} → Option (List A) → List A
set_or none = []
set_or (some s) = s

module _ {T : Type 0} where
  unfoldable pub new_hub : ℕ → Hub T
  new_hub max_clients = record {
    max_clients = max_clients;
    clients = [];
    watchers = [];
    watched = [];
    closed = [];
    mempool_dirty = false;
    logged_clients = 0;
    pending_block = none;
    pending_mempool = false;
    stopped = false;
  }

  -- The channel holds one hash: it is drained, then sent to, so the latest block wins.
  unfoldable pub notify_block : Hub T → T → Hub T
  notify_block h hash = record h { pending_block = some hash }

  -- A full channel swallows the request.
  unfoldable pub notify_mempool : Hub T → Hub T
  notify_mempool h = record h { pending_mempool = true }

  -- The set of transactions that a connection watches.
  abbrev pub watched_of : List (ℕ × List T) → ℕ → List T
  watched_of w c = set_or (lookup c w)

module _ {T : Type 0} ⦃e : Eq T⦄ where
  -- The connections that watch a transaction.
  abbrev pub watchers_of : List (T × List ℕ) → T → List ℕ
  watchers_of w t = set_or (lookup t w)

  abbrev pub remove_from : List (T × List ℕ) → T → ℕ → Option (List ℕ) → List (T × List ℕ)
  remove_from w t c none = w
  remove_from w t c (some s) = if null (remove c s) then delete t w else insert t (remove c s) w

  unfoldable pub remove_watcher : List (T × List ℕ) → T → ℕ → List (T × List ℕ)
  remove_watcher w t c = remove_from w t c (lookup t w)

  -- The loop of `drop` over the client's watched transactions.
  unfoldable pub remove_watchers : List (T × List ℕ) → List T → ℕ → List (T × List ℕ)
  remove_watchers w [] c = w
  remove_watchers w (t ∷ ts) c = remove_watchers (remove_watcher w t c) ts c

  unfoldable pub drop_client : Hub T → ℕ → Hub T
  drop_client h c =
      if elem c h.clients
      then record h {
        clients = remove c h.clients;
        watchers = remove_watchers h.watchers (watched_of h.watched c) c;
        closed = c ∷ h.closed;
      }
      else h

  unfoldable pub push_sets : List (T × List ℕ) → List (Push T)
  push_sets [] = []
  push_sets ((t, s) ∷ w) = push_tx t s ∷ push_sets w

  -- Nothing is pushed to an empty house.
  abbrev pub unless_empty : List ℕ → List (Push T) → List (Push T)
  unless_empty [] ps = []
  unless_empty (c ∷ cs) ps = ps

  unfoldable pub push_all : Hub T → List (Push T)
  unfolding push_sets
  push_all h = unless_empty h.clients (push_stats h.clients ∷ []) ++ push_sets h.watchers

  unfoldable pub on_register : Hub T → ℕ → Hub T × List (Push T)
  on_register h c =
      if ltb 0 h.max_clients && leb h.max_clients (length h.clients)
      then (record h { closed = c ∷ h.closed }, [])
      else (
        record h { clients = include c h.clients },
        push_stats (c ∷ []) ∷ push_mempool (c ∷ []) ∷ [],
      )

  -- The cap refuses a new registration, and never one that is already there.
  abbrev pub is_over_cap : Hub T → ℕ → T → Bool
  is_over_cap h c t =
      leb max_watched_per_client (length (watched_of h.watched c))
      && not (elem t (watched_of h.watched c))

  unfoldable pub on_watch : Hub T → ℕ → T → Hub T × List (Push T)
  on_watch h c t = if is_over_cap h c t then (h, []) else (
    record h {
      watchers = insert t (include c (watchers_of h.watchers t)) h.watchers;
      watched = insert c (include t (watched_of h.watched c)) h.watched;
    },
    push_tx t (c ∷ []) ∷ [],
  )

  unfoldable pub on_unwatch : Hub T → ℕ → T → Hub T × List (Push T)
  on_unwatch h c t = (
    record h {
      watchers = remove_watcher h.watchers t c;
      watched = insert c (remove t (watched_of h.watched c)) h.watched;
    },
    [],
  )

  unfoldable pub on_command : Hub T → ℕ → Bool → T → Hub T × List (Push T)
  unfolding on_watch on_unwatch
  on_command h c watch t =
      if elem c h.clients then (if watch then on_watch h c t else on_unwatch h c t) else (h, [])

  -- A receive from the block channel; the loop does not take this case while it is empty.
  abbrev pub on_block : Hub T → Option T → Hub T × List (Push T)
  on_block h none = (h, [])
  on_block h (some hash) = (
    record h { pending_block = none; mempool_dirty = false },
    push_all h
        ++ unless_empty h.clients (push_mempool h.clients ∷ push_block_flash hash h.clients ∷ []),
  )

  abbrev pub on_mempool : Hub T → Hub T × List (Push T)
  on_mempool h =
      if h.pending_mempool
      then (record h { pending_mempool = false; mempool_dirty = true }, [])
      else (h, [])

  abbrev pub on_mempool_tick : Hub T → Hub T × List (Push T)
  on_mempool_tick h =
      if h.mempool_dirty
      then (
        record h { mempool_dirty = false },
        unless_empty h.clients (push_mempool h.clients ∷ []),
      )
      else (h, [])

  unfoldable pub handle : Hub T → Event T → Hub T × List (Push T)
  unfolding drop_client push_all on_register on_command
  handle h done = (record h { closed = h.clients ++ h.closed; stopped = true }, [])
  handle h (register c) = on_register h c
  handle h (unregister c) = (drop_client h c, [])
  handle h (command c watch t) = on_command h c watch t
  handle h block = on_block h h.pending_block
  handle h mempool = on_mempool h
  handle h mempool_tick = on_mempool_tick h
  handle h tick = (h, push_all h)
  handle h log_tick = (record h { logged_clients = length h.clients }, [])

  -- One round of the loop, which ends at `done`.
  unfoldable pub step : Hub T → Event T → Hub T × List (Push T)
  unfolding handle
  step h ev = if h.stopped then (h, []) else handle h ev
