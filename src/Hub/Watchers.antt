-- ===== src/Hub/Watchers.antt =====
-- internal/api/hub.go: the map of watchers, read as a relation between connections and
-- transactions.
use mathlib.Core.Bool.{true≢false}
use btcdwatch_com.Base.{
  none, some, beq_refl, ℕ, ◌≡◌, refl, List, [], ◌∷◌, Bool, true, false, ◌&&◌, arith, if◌then◌else◌,
  ◌==◌, ==_iff, Eq, nat_eq, inl, inr, Bool-cases, Option-cases,
}
use btcdwatch_com.Base.Map.{
  Distinct, elem, remove, lookup, insert, elem-remove, lookup-insert, lookup-delete,
}
use btcdwatch_com.Hub.{null, watchers_of, remove_watcher, remove_watchers}

elem-null : (j : ℕ) (s : List ℕ) → null s ≡ true → elem j s ≡ false
unfolding elem
elem-null j [] h = refl
elem-null j (x ∷ s) h = cc

module _ {T : Type 0} ⦃e : Eq T⦄ where
  -- Whether a connection watches a transaction, by the map.
  abbrev pub watches : List (T × List ℕ) → ℕ → T → Bool
  watches w c t = elem c (watchers_of w t)

  pub watches-insert :
      (w : List (T × List ℕ)) (t : T) (s : List ℕ) (j : ℕ) (u : T)
      → watches (insert t s w) j u ≡ (if e.beq t u then elem j s else watches w j u)
  watches-insert w t s j u = ground (arith, lookup-insert u t s w)

  pub watches-remove_watcher :
      (w : List (T × List ℕ)) (t : T) (c j : ℕ) (u : T)
      → watches (remove_watcher w t c) j u ≡ (if e.beq t u && c == j then false else watches w j u)
  unfolding remove_watcher elem
  watches-remove_watcher w t c j u = elim (Option-cases (lookup t w)) [
    | inl none_there ↦ rw none_there (ground (arith, e.beq_iff t u))
    | inr (s, there) ↦ elim (Bool-cases (null (remove c s))) [
      | inl empty ↦
          rw (there, empty)
            (ground (
              arith,
              lookup-delete u t w,
              elem-null j (remove c s) empty,
              elem-remove j c s,
              e.beq_iff t u,
              ==_iff c j,
            ))
      | inr left ↦
          rw (there, left)
            (ground (
              arith,
              lookup-insert u t (remove c s) w,
              elem-remove j c s,
              e.beq_iff t u,
              ==_iff c j,
            ))
    ]
  ]

  pub watches-remove_watchers :
      (w : List (T × List ℕ)) (ts : List T) (c j : ℕ) (u : T)
      → watches (remove_watchers w ts c) j u
        ≡ (if elem u ts && c == j then false else watches w j u)
  unfolding remove_watchers elem
  watches-remove_watchers w [] c j u = refl
  watches-remove_watchers w (t ∷ ts) c j u = ground (
    arith,
    watches-remove_watchers (remove_watcher w t c) ts c j u,
    watches-remove_watcher w t c j u,
  )

  -- Each transaction of the map is one of those that `P` admits.
  abbrev pub AllKeys : (T → Type 0) → List (T × List ℕ) → Type 0
  AllKeys P [] = Unit
  AllKeys P ((t, s) ∷ w) = P t × AllKeys P w

  watches_behind :
      (t : T) (s : List ℕ) (w : List (T × List ℕ)) (c : ℕ) (u : T)
      → lookup t w ≡ none
      → watches w c u ≡ true
      → watches ((t, s) ∷ w) c u ≡ true
  unfolding lookup elem
  watches_behind t s w c u alone there = ground (arith, alone, there, e.beq_iff t u)

  watched_first :
      (t : T) (s : List ℕ) (w : List (T × List ℕ))
      → null s ≡ false
      → (c : ℕ) × (watches ((t, s) ∷ w) c t ≡ true)
  unfolding lookup elem
  watched_first t [] w h = absurd (true≢false h)
  watched_first t (c ∷ s) w h = (c, ground (arith, beq_refl e t, ==_iff c c))

  -- So it is if every transaction that someone watches is, since no set is empty.
  pub watched-AllKeys :
      {P : T → Type 0}
      → (w : List (T × List ℕ)) → Distinct w
      → ((t : T) (s : List ℕ) → lookup t w ≡ some s → null s ≡ false)
      → ((c : ℕ) (t : T) → watches w c t ≡ true → P t)
      → AllKeys P w
  unfolding lookup
  watched-AllKeys [] d full all = tt
  watched-AllKeys ((t, s) ∷ w) (alone, d) full all =
      let (c, there) = watched_first t s w (full t s (ground (arith, beq_refl e t))) in
      (
        all c t there,
        watched-AllKeys w d (λ u r at. full u r (ground (arith, at, alone, e.beq_iff t u)))
            (λ j u at. all j u (watches_behind t s w j u alone at)),
      )
