-- ===== src/Hub/Agreement.antt =====
-- internal/api/hub.go: the clients and their watch sets agree, and the operations on them keep it so.
use btcdwatch_com.Base.{
  ℕ, ◌≤◌, ◌<◌, ◌≡◌, refl, sym, ◌∙◌, ap, List, [], ◌∷◌, Option, none, some, true, false, ◌&&◌, arith,
  ltb, leb, ==_iff, Eq, nat_eq, inl, inr, Bool-cases, Option-cases, length,
}
use btcdwatch_com.Base.Map.{
  elem, remove, include, lookup, elem-remove, elem-include, lookup-insert, lookup-delete,
  length-remove, length-include, Distinct, insert-Distinct, delete-Distinct,
}
use btcdwatch_com.Hub.Watchers.{
  watches, watches-insert, watches-remove_watcher, watches-remove_watchers,
}
use btcdwatch_com.Hub.{
  Hub, Event, register, null, watched_of, watchers_of, remove_watcher, remove_watchers, drop_client,
  is_over_cap, on_register, on_watch, on_unwatch, on_block, on_mempool, on_mempool_tick,
  max_watched_per_client,
}

include-null : (c : ℕ) (s : List ℕ) → null (include c s) ≡ false
unfolding include elem
include-null c [] = refl
include-null c (x ∷ s) = ground arith

module _ {T : Type 0} ⦃e : Eq T⦄ where
  -- No transaction is left with an empty set.
  abbrev pub NoEmptySet : List (T × List ℕ) → Type 0
  NoEmptySet w = (t : T) (s : List ℕ) → lookup t w ≡ some s → null s ≡ false

  -- The map of watchers and the clients' own sets say the same, and the caps hold.
  pub record IsHub (h : Hub T) : Type 0 where
    pub agree :
        (c : ℕ) (t : T)
        → watches h.watchers c t ≡ (elem c h.clients && elem t (watched_of h.watched c))
    pub no_empty : NoEmptySet h.watchers
    pub distinct : Distinct h.watchers
    pub watch_cap : (c : ℕ) → length (watched_of h.watched c) ≤ max_watched_per_client
    pub client_cap : 0 < h.max_clients → length h.clients ≤ h.max_clients

  -- A connection registers once, before it can watch anything.
  abbrev pub IsAdmissible : Hub T → Event T → Type 0
  IsAdmissible h (register c) = watched_of h.watched c ≡ []
  IsAdmissible h _ = Unit

  remove_watcher-NoEmptySet :
      (w : List (T × List ℕ)) (t : T) (c : ℕ) → NoEmptySet w → NoEmptySet (remove_watcher w t c)
  unfolding remove_watcher
  remove_watcher-NoEmptySet w t c n u s = elim (Option-cases (lookup t w)) [
    | inl none_there ↦ rw none_there (n u s)
    | inr (r, there) ↦ elim (Bool-cases (null (remove c r))) [
      | inl empty ↦ rw (there, empty) (λ at. ground (arith, lookup-delete u t w, n u s))
      | inr left ↦ rw (there, left) (λ at. ground (arith, lookup-insert u t (remove c r) w, n u s))
    ]
  ]

  remove_watcher-Distinct :
      (w : List (T × List ℕ)) (t : T) (c : ℕ) → Distinct w → Distinct (remove_watcher w t c)
  unfolding remove_watcher
  remove_watcher-Distinct w t c d = elim (Option-cases (lookup t w)) [
    | inl none_there ↦ rw none_there d
    | inr (r, there) ↦ elim (Bool-cases (null (remove c r))) [
      | inl empty ↦ rw (there, empty) (delete-Distinct t w d)
      | inr left ↦ rw (there, left) (insert-Distinct t (remove c r) w d)
    ]
  ]

  remove_watchers-Distinct :
      (w : List (T × List ℕ)) (ts : List T) (c : ℕ) → Distinct w → Distinct (remove_watchers w ts c)
  unfolding remove_watchers
  remove_watchers-Distinct w [] c d = d
  remove_watchers-Distinct w (t ∷ ts) c d =
      remove_watchers-Distinct (remove_watcher w t c) ts c (remove_watcher-Distinct w t c d)

  remove_watchers-NoEmptySet :
      (w : List (T × List ℕ)) (ts : List T) (c : ℕ)
      → NoEmptySet w
      → NoEmptySet (remove_watchers w ts c)
  unfolding remove_watchers
  remove_watchers-NoEmptySet w [] c n = n
  remove_watchers-NoEmptySet w (t ∷ ts) c n =
      remove_watchers-NoEmptySet (remove_watcher w t c) ts c (remove_watcher-NoEmptySet w t c n)

  pub drop_client-IsHub : (h : Hub T) (c : ℕ) → IsHub h → IsHub (drop_client h c)
  unfolding drop_client
  drop_client-IsHub h c i = elim (Bool-cases (elem c h.clients)) [
    | inl here ↦ rw here (record {
      agree = λ j t. ground (
        arith,
        i.agree j t,
        watches-remove_watchers h.watchers (watched_of h.watched c) c j t,
        elem-remove j c h.clients,
        ==_iff c j,
      );
      no_empty = remove_watchers-NoEmptySet h.watchers (watched_of h.watched c) c i.no_empty;
      distinct = remove_watchers-Distinct h.watchers (watched_of h.watched c) c i.distinct;
      watch_cap = i.watch_cap;
      client_cap = λ m. omega (arith, i.client_cap m, length-remove c h.clients);
    })
    | inr gone ↦ rw gone i
  ]

  pub on_watch-IsHub :
      (h : Hub T) (c : ℕ) (t : T) → elem c h.clients ≡ true → IsHub h → IsHub (on_watch h c t).0
  unfolding on_watch
  on_watch-IsHub h c t here i = elim (Bool-cases (is_over_cap h c t)) [
    | inl refused ↦ rw refused i
    | inr room ↦ rw room (record {
      agree = λ j u. ground (
        arith,
        i.agree j u,
        here,
        watches-insert h.watchers t (include c (watchers_of h.watchers t)) j u,
        elem-include j c (watchers_of h.watchers t),
        lookup-insert j c (include t (watched_of h.watched c)) h.watched,
        elem-include u t (watched_of h.watched c),
        e.beq_iff t u,
        ==_iff c j,
      );
      no_empty = λ u s at. ground (
        arith,
        at,
        i.no_empty u s,
        lookup-insert u t (include c (watchers_of h.watchers t)) h.watchers,
        include-null c (watchers_of h.watchers t),
      );
      distinct = insert-Distinct t (include c (watchers_of h.watchers t)) h.watchers i.distinct;
      watch_cap = λ j. ground (
        arith,
        room,
        i.watch_cap j,
        lookup-insert j c (include t (watched_of h.watched c)) h.watched,
        length-include t (watched_of h.watched c),
      );
      client_cap = i.client_cap;
    })
  ]

  pub on_unwatch-IsHub : (h : Hub T) (c : ℕ) (t : T) → IsHub h → IsHub (on_unwatch h c t).0
  unfolding on_unwatch
  on_unwatch-IsHub h c t i = record {
    agree = λ j u. ground (
      arith,
      i.agree j u,
      watches-remove_watcher h.watchers t c j u,
      lookup-insert j c (remove t (watched_of h.watched c)) h.watched,
      elem-remove u t (watched_of h.watched c),
      e.beq_iff t u,
      ==_iff c j,
    );
    no_empty = remove_watcher-NoEmptySet h.watchers t c i.no_empty;
    distinct = remove_watcher-Distinct h.watchers t c i.distinct;
    watch_cap = λ j. ground (
      arith,
      i.watch_cap j,
      i.watch_cap c,
      lookup-insert j c (remove t (watched_of h.watched c)) h.watched,
      length-remove t (watched_of h.watched c),
    );
    client_cap = i.client_cap;
  }

  pub on_register-IsHub :
      (h : Hub T) (c : ℕ) → watched_of h.watched c ≡ [] → IsHub h → IsHub (on_register h c).0
  unfolding on_register elem
  on_register-IsHub h c fresh i =
      elim (Bool-cases (ltb 0 h.max_clients && leb h.max_clients (length h.clients))) [
        | inl house_full ↦ rw house_full (record {
          agree = i.agree;
          no_empty = i.no_empty;
          distinct = i.distinct;
          watch_cap = i.watch_cap;
          client_cap = i.client_cap;
        })
        | inr room ↦ rw room (record {
          agree = λ j t.
              ground (arith, i.agree j t, elem-include j c h.clients, ==_iff c j, none_watched j t);
          no_empty = i.no_empty;
          distinct = i.distinct;
          watch_cap = i.watch_cap;
          client_cap = λ m. ground (arith, room, m, i.client_cap m, length-include c h.clients);
        })
      ]
    where
      none_watched : (j : ℕ) (t : T) → c ≡ j → elem t (watched_of h.watched j) ≡ false
      none_watched j t same =
          ap (λ x. elem t (watched_of h.watched x)) (sym same) ∙ ap (elem t) fresh

  -- The invariant speaks of four fields alone.
  pub same-IsHub :
      {h h' : Hub T}
      → IsHub h
      → h'.clients ≡ h.clients
      → h'.watchers ≡ h.watchers
      → h'.watched ≡ h.watched
      → h'.max_clients ≡ h.max_clients
      → IsHub h'
  same-IsHub i c w s m = record {
    agree = λ j t. rw (c, w, s) (i.agree j t);
    no_empty = rw w i.no_empty;
    distinct = rw w i.distinct;
    watch_cap = λ j. rw s (i.watch_cap j);
    client_cap = rw (m, c) i.client_cap;
  }

  pub on_block-IsHub : (h : Hub T) (o : Option T) → IsHub h → IsHub (on_block h o).0
  on_block-IsHub h none i = i
  on_block-IsHub h (some hash) i = same-IsHub i refl refl refl refl

  pub on_mempool-IsHub : (h : Hub T) → IsHub h → IsHub (on_mempool h).0
  on_mempool-IsHub h i = same-IsHub i (ground arith) (ground arith) (ground arith) (ground arith)

  pub on_mempool_tick-IsHub : (h : Hub T) → IsHub h → IsHub (on_mempool_tick h).0
  on_mempool_tick-IsHub h i =
      same-IsHub i (ground arith) (ground arith) (ground arith) (ground arith)
