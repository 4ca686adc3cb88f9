-- ===== src/Ws/Sessions/Invariant.antt =====
-- internal/api/ws.go and hub.go: what holds of the hub while the connections send to it in any order.
use mathlib.Core.Bool.{true≢false}
use btcdwatch_com.Base.{
  ℕ, ◌≤◌, ◌≡◌, refl, sym, subst, ◌∙◌, ap, List, [], ◌∷◌, Option, Bool, false, arith, ◌==◌, ==_iff,
  nat_eq, inl, inr, Bool-cases,
}
use btcdwatch_com.Base.Map.{elem, lookup}
use btcdwatch_com.Base.Text.{Text, codes_eq}
use btcdwatch_com.Hub.{
  Hub, Event, done, block, mempool, mempool_tick, tick, log_tick, null, register, unregister,
  command, new_hub, watched_of, step, notify_block, notify_mempool,
}
use btcdwatch_com.Hub.Invariant.{IsHub, Reachable, Moves, IsAdmissible, Reachable-IsHub}
use btcdwatch_com.Hub.Others.{
  IsSparing, Asks, IsOut, AllWatched, step-watched_of, step-AllWatched, step-IsOut,
  unregister-IsOut,
}
use btcdwatch_com.Hub.Watchers.{watches, AllKeys, watched-AllKeys}
use btcdwatch_com.Ws.{Inbound, read_pump}
use btcdwatch_com.Ws.Sessions.{
  System, new_system, take_from, IsTxid, IsOwn, handle_ws, upgrade, Turn, upgraded, taken, round,
  block_notified, mempool_notified, Runs, start, next,
}
use btcdwatch_com.Ws.Commands.{IsPump, gone, commanded, read_pump-IsPump}

module _ {Addr : Type 0} (decode : Text → Option Addr) (is_for_net : Addr → Bool) where
  -- What a connection has still to send, by how far it has come.
  data IsStream (c : ℕ) (h : Hub Text) : List (Event Text) → Type 0 where
    unopened :
        (es : List (Event Text))
        → watched_of h.watched c ≡ []
        → IsPump c es
        → IsStream c h (register c ∷ es)
    opened : (es : List (Event Text)) → IsPump c es → IsStream c h es
    over : IsOut c h → IsStream c h []

  record IsSystem (n : ℕ) (s : System) : Type 0 where
    reached : Reachable n s.hub
    txids : AllWatched IsTxid s.hub.watched
    fresh : (c : ℕ) → s.upgraded ≤ c → watched_of s.hub.watched c ≡ []
    silent : (c : ℕ) → s.upgraded ≤ c → s.streams c ≡ []
    streams : (c : ℕ) → IsStream c s.hub (s.streams c)

  new_system-IsSystem : (n : ℕ) → IsSystem n (new_system n)
  unfolding new_system new_hub lookup elem
  new_system-IsSystem n = record {
    reached = Reachable.start;
    txids = λ c t there. cc;
    fresh = λ c h. refl;
    silent = λ c h. refl;
    streams = λ c. over (λ running. refl);
  }

  IsStream-other :
      (c : ℕ) (h : Hub Text) (ev : Event Text) (es : List (Event Text))
      → IsSparing c ev
      → IsStream c h es
      → IsStream c (step h ev).0 es
  IsStream-other c h ev es a (unopened fs none p) = unopened fs (step-watched_of h ev c a ∙ none) p
  IsStream-other c h ev es a (opened fs p) = opened fs p
  IsStream-other c h ev es a (over out) = over (step-IsOut h ev c a out)

  -- One round of the loop: an event that only connection `c` may have sent, behind which stands `es`.
  round-IsSystem :
      {n : ℕ}
      → (s : System) (c : ℕ) (ev : Event Text) (es : List (Event Text)) → IsAdmissible s.hub ev
      → Asks IsTxid ev
      → ((j : ℕ) → (c == j) ≡ false → IsSparing j ev)
      → (s.upgraded ≤ c → ⊥)
      → IsStream c (step s.hub ev).0 es
      → IsSystem n s
      → IsSystem n (take_from s c ev es)
  unfolding take_from
  round-IsSystem s c ev es admissible asks spares known left i = record {
    reached = Reachable.next i.reached (Moves.round ev admissible);
    txids = step-AllWatched s.hub ev asks i.txids;
    fresh = λ j late. step-watched_of s.hub ev j (spares j (later j late)) ∙ i.fresh j late;
    silent = λ j late. rw (later j late) (i.silent j late);
    streams = λ j. elim (Bool-cases (c == j)) [
      | inl same ↦ rw same (subst (λ k. IsStream k (step s.hub ev).0 es) ((==_iff c j).0 same) left)
      | inr other ↦
          rw other (IsStream-other j s.hub ev (s.streams j) (spares j other) (i.streams j))
    ];
  }
    where
      later : (j : ℕ) → s.upgraded ≤ j → (c == j) ≡ false
      later j late = elim (Bool-cases (c == j)) [
        | inl same ↦ absurd (known (subst (λ k. s.upgraded ≤ k) (sym ((==_iff c j).0 same)) late))
        | inr other ↦ other
      ]

  taken-IsSystem :
      {n : ℕ}
      → (s : System) (c : ℕ) (ev : Event Text) (es : List (Event Text)) → IsStream c s.hub (ev ∷ es)
      → (s.upgraded ≤ c → ⊥)
      → IsSystem n s
      → IsSystem n (take_from s c ev es)
  taken-IsSystem s c ev es (unopened fs none p) known i =
      round-IsSystem s c (register c) es none tt (λ j apart. apart) known (opened es p) i
  taken-IsSystem s c ev es (opened fs gone) known i =
      round-IsSystem s c (unregister c) [] tt tt (λ j apart. tt) known
        (over (unregister-IsOut s.hub c)) i
  taken-IsSystem s c ev es (opened fs (commanded watch t rest wide hex p)) known i =
      round-IsSystem s c (command c watch t) es tt (wide, hex) (λ j apart. apart) known
        (opened es p) i

  hub-IsSystem :
      {n : ℕ}
      → (s : System) (h : Hub Text) → Moves s.hub h
      → AllWatched IsTxid h.watched
      → ((c : ℕ) → watched_of h.watched c ≡ watched_of s.hub.watched c)
      → ((c : ℕ) → IsOut c s.hub → IsOut c h)
      → IsSystem n s
      → IsSystem n (record s { hub = h })
  hub-IsSystem s h move txids same out i = record {
    reached = Reachable.next i.reached move;
    txids = txids;
    fresh = λ c late. same c ∙ i.fresh c late;
    silent = i.silent;
    streams = λ c. stream c (s.streams c) (i.streams c);
  }
    where
      stream : (c : ℕ) (es : List (Event Text)) → IsStream c s.hub es → IsStream c h es
      stream c es (unopened fs none p) = unopened fs (same c ∙ none) p
      stream c es (opened fs p) = opened fs p
      stream c es (over gone_before) = over (out c gone_before)

  own-spares :
      (ev : Event Text) (h : Hub Text)
      → IsOwn ev
      → IsAdmissible h ev × Asks IsTxid ev × ((c : ℕ) → IsSparing c ev)
  own-spares done h own = (tt, tt, λ c. tt)
  own-spares (register c) h own = absurd own
  own-spares (unregister c) h own = (tt, tt, λ c. tt)
  own-spares (command c watch t) h own = absurd own
  own-spares block h own = (tt, tt, λ c. tt)
  own-spares mempool h own = (tt, tt, λ c. tt)
  own-spares mempool_tick h own = (tt, tt, λ c. tt)
  own-spares tick h own = (tt, tt, λ c. tt)
  own-spares log_tick h own = (tt, tt, λ c. tt)

  own-IsSystem :
      {n : ℕ}
      → (s : System) (ev : Event Text) → IsOwn ev
      → IsSystem n s
      → IsSystem n (record s { hub = (step s.hub ev).0 })
  own-IsSystem s ev own i =
      let (admissible, asks, spares) = own-spares ev s.hub own in
      hub-IsSystem s (step s.hub ev).0 (Moves.round ev admissible)
        (step-AllWatched s.hub ev asks i.txids) (λ c. step-watched_of s.hub ev c (spares c))
        (λ c. step-IsOut s.hub ev c (spares c)) i

  upgrade-IsSystem :
      {n : ℕ}
      → (s : System) (frames : List Inbound) → IsSystem n s
      → IsSystem n (upgrade decode is_for_net s frames)
  unfolding upgrade handle_ws
  upgrade-IsSystem s frames i = record {
    reached = i.reached;
    txids = i.txids;
    fresh = λ j late. i.fresh j (omega (arith, late));
    silent = λ j late. ground (arith, late, i.silent j (omega (arith, late)), ==_iff s.upgraded j);
    streams = λ j. elim (Bool-cases (s.upgraded == j)) [
      | inl same ↦ rw same (
          subst (λ k. IsStream k s.hub (handle_ws decode is_for_net s.upgraded frames))
            ((==_iff s.upgraded j).0 same)
            (unopened (read_pump decode is_for_net s.upgraded frames)
              (i.fresh s.upgraded (omega arith))
              (read_pump-IsPump decode is_for_net s.upgraded frames)))
      | inr other ↦ rw other (i.streams j)
    ];
  }

  Turn-IsSystem :
      {n : ℕ} {s s' : System} → Turn decode is_for_net s s' → IsSystem n s → IsSystem n s'
  unfolding notify_block notify_mempool
  Turn-IsSystem {s = s} (upgraded frames) i = upgrade-IsSystem s frames i
  Turn-IsSystem {s = s} (taken c ev es next_is) i =
      taken-IsSystem s c ev es (subst (IsStream c s.hub) next_is (i.streams c))
        (λ late. true≢false (ap null (sym (i.silent c late) ∙ next_is))) i
  Turn-IsSystem {s = s} (round ev own) i = own-IsSystem s ev own i
  Turn-IsSystem {s = s} (block_notified hash) i =
      hub-IsSystem s (notify_block s.hub hash) (Moves.block_notified hash) i.txids (λ c. refl)
        (λ c out. out) i
  Turn-IsSystem {s = s} mempool_notified i =
      hub-IsSystem s (notify_mempool s.hub) Moves.mempool_notified i.txids (λ c. refl)
        (λ c out. out) i

  Runs-IsSystem : {n : ℕ} {s : System} → Runs decode is_for_net n s → IsSystem n s
  Runs-IsSystem {n} start = new_system-IsSystem n
  Runs-IsSystem (next runs turn) = Turn-IsSystem turn (Runs-IsSystem runs)

  IsPump-null : {c : ℕ} → (es : List (Event Text)) → IsPump c es → null es ≡ false
  IsPump-null es gone = refl
  IsPump-null es (commanded watch t rest wide hex p) = refl

  over-IsOut : (c : ℕ) (h : Hub Text) → IsStream c h [] → IsOut c h
  over-IsOut c h (over out) = out
  over-IsOut c h (opened es p) = absurd (true≢false (IsPump-null [] p))

  -- Whatever frames the connections send, and however their read pumps, the ticks and the
  -- notifications take turns at the hub: its state is one that the loop can reach, the map of watchers
  -- and the clients' sets agree, no transaction is left with an empty set, both caps hold, and every
  -- id in the map has 64 hexadecimal digits in lower case, as the node names a transaction.
  pub Runs-IsGuarded :
      (n : ℕ) (s : System)
      → Runs decode is_for_net n s
      → Reachable n s.hub × IsHub s.hub × AllKeys IsTxid s.hub.watchers
  Runs-IsGuarded n s runs =
      let i = Runs-IsSystem runs in
      let hub = Reachable-IsHub i.reached in
      (
        i.reached,
        hub,
        watched-AllKeys s.hub.watchers hub.distinct hub.no_empty
            (λ c t there. i.txids c t (ground (arith, hub.agree c t, there))),
      )

  -- While the loop runs, a connection that has sent all it will, to its end, is no client any more, and
  -- watches nothing.
  pub Runs-ended :
      (n : ℕ) (s : System) (c : ℕ) (t : Text)
      → Runs decode is_for_net n s
      → s.streams c ≡ []
      → s.hub.stopped ≡ false
      → (elem c s.hub.clients ≡ false) × (watches s.hub.watchers c t ≡ false)
  Runs-ended n s c t runs ended running =
      let i = Runs-IsSystem runs in
      let out = over-IsOut c s.hub (subst (IsStream c s.hub) ended (i.streams c)) running in
      (out, ground (arith, (Reachable-IsHub i.reached).agree c t, out))
