-- ===== src/Arrivals/Buffer.antt =====
-- internal/explorer/arrivals.go: what the buffer of arrivals holds.
use btcdwatch_com.Base.{
  ℕ, ◌+◌, ◌-◌, ◌≤◌, ◌≡◌, List, [], ◌∷◌, false, ◌||◌, ltb, ◌==◌, ==_iff, arith, Eq, inl, inr,
  Bool-cases, length,
}
use btcdwatch_com.Base.Int.{ℤ}
use btcdwatch_com.Base.Sort.{All}
use btcdwatch_com.Base.Text.{Text}
use btcdwatch_com.Arrivals.{Unresolved, keep_arrivals, buffer, arrivals_cap, arrival_max_age}

module _ ⦃e : Eq Text⦄ where
  -- No entry has the id.
  abbrev pub IsAbsent : Text → List Unresolved → Type 0
  IsAbsent txid as' = All (λ (a : Unresolved). e.beq a.txid txid ≡ false) as'

  abbrev pub DistinctIds : List Unresolved → Type 0
  DistinctIds [] = Unit {0}
  DistinctIds (a ∷ as') = IsAbsent a.txid as' × DistinctIds as'

  abbrev pub AllRecent : ℕ → List Unresolved → Type 0
  AllRecent now as' = All (λ (a : Unresolved). now - a.seen ≤ arrival_max_age) as'

  -- The buffer at a time: no transaction twice, at most twelve, none older than five minutes.
  pub record IsBuffer (now : ℕ) (as' : List Unresolved) : Type 0 where
    pub distinct : DistinctIds as'
    pub capped : length as' ≤ arrivals_cap
    pub recent : AllRecent now as'

  keep_arrivals-IsAbsent :
      (txid k : Text) (now n : ℕ) (as' : List Unresolved)
      → IsAbsent k as'
      → IsAbsent k (keep_arrivals txid now n as')
  unfolding keep_arrivals
  keep_arrivals-IsAbsent txid k now n [] h = tt
  keep_arrivals-IsAbsent txid k now n (a ∷ as') (p, h) =
      elim (Bool-cases (n == arrivals_cap || ltb arrival_max_age (now - a.seen))) [
        | inl stop ↦ rw stop tt
        | inr go ↦ rw go (elim (Bool-cases (e.beq a.txid txid)) [
          | inl same ↦ rw same (keep_arrivals-IsAbsent txid k now n as' h)
          | inr other ↦ rw other (p, keep_arrivals-IsAbsent txid k now (n + 1) as' h)
        ])
      ]

  keep_arrivals-lem :
      (txid : Text) (now n : ℕ) (as' : List Unresolved)
      → n ≤ arrivals_cap
      → DistinctIds as'
      → IsAbsent txid (keep_arrivals txid now n as')
        × DistinctIds (keep_arrivals txid now n as')
        × (n + length (keep_arrivals txid now n as') ≤ arrivals_cap)
        × AllRecent now (keep_arrivals txid now n as')
  unfolding keep_arrivals
  keep_arrivals-lem txid now n [] h d = (tt, tt, omega arith, tt)
  keep_arrivals-lem txid now n (a ∷ as') h (p, d) =
      elim (Bool-cases (n == arrivals_cap || ltb arrival_max_age (now - a.seen))) [
        | inl stop ↦ rw stop (tt, tt, omega arith, tt)
        | inr go ↦ rw go (elim (Bool-cases (e.beq a.txid txid)) [
          | inl same ↦ rw same (keep_arrivals-lem txid now n as' h d)
          | inr other ↦
              let room : n + 1 ≤ arrivals_cap = ground (arith, ==_iff n arrivals_cap) in
              let young : now - a.seen ≤ arrival_max_age = ground (arith, ==_iff n arrivals_cap) in
              let (absent, distinct, few, recent) = keep_arrivals-lem txid now (n + 1) as' room d in
              rw other (
                (other, absent),
                (keep_arrivals-IsAbsent txid a.txid now (n + 1) as' p, distinct),
                omega (arith, few),
                (young, recent),
              )
        ])
      ]

  -- The buffers that a service can come to hold, from the empty one.
  unfoldable pub buffer_after : List (Text × ℤ × ℕ) → List Unresolved
  buffer_after [] = []
  buffer_after ((txid, amount, now) ∷ ns) = buffer (buffer_after ns) txid amount now

  buffer-IsBuffer :
      (old : List Unresolved) (txid : Text) (amount : ℤ) (now : ℕ)
      → DistinctIds old
      → IsBuffer now (buffer old txid amount now)
  unfolding buffer
  buffer-IsBuffer old txid amount now d =
      let (absent, distinct, few, recent) = keep_arrivals-lem txid now 1 old (omega arith) d in
      record {
        distinct = (absent, distinct);
        capped = omega (arith, few);
        recent = (omega arith, recent);
      }

  buffer_after-DistinctIds : (ns : List (Text × ℤ × ℕ)) → DistinctIds (buffer_after ns)
  unfolding buffer_after
  buffer_after-DistinctIds [] = tt
  buffer_after-DistinctIds ((txid, amount, now) ∷ ns) =
      (buffer-IsBuffer (buffer_after ns) txid amount now (buffer_after-DistinctIds ns)).distinct

  -- After any notifications, rebroadcasts included, the buffer holds no transaction twice, at most
  -- twelve in all, and none that was seen more than five minutes before the last notification.
  pub buffer_after-IsBuffer :
      (ns : List (Text × ℤ × ℕ)) (txid : Text) (amount : ℤ) (now : ℕ)
      → IsBuffer now (buffer_after ((txid, amount, now) ∷ ns))
  unfolding buffer_after
  buffer_after-IsBuffer ns txid amount now =
      buffer-IsBuffer (buffer_after ns) txid amount now (buffer_after-DistinctIds ns)
