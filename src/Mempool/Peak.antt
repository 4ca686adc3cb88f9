-- ===== src/Mempool/Peak.antt =====
-- internal/explorer/mempool.go: the peak of the queue bar is that of the last hour.
use btcdwatch_com.Base.{
  ℕ, ◌-◌, ◌*◌, ◌≤◌, ◌≡◌, max, refl, ◌∙◌, List, [], ◌∷◌, arith, ltb, leb, ◌==◌, ==_iff, inl, inr,
  Bool-cases, if◌then◌else◌,
}
use btcdwatch_com.Base.Float.{Float}
use btcdwatch_com.Base.Sort.{All}
use btcdwatch_com.Mempool.{
  Mempool, PeakBucket, bucket_of, peak_bucket_dur, peak_buckets, note_last, drop_old, peak_from,
  noted_peaks, note_peak,
}

-- The first bucket that still counts at a time.
abbrev pub first_bucket : ℕ → ℕ
first_bucket now = bucket_of now - (peak_buckets - 1) * peak_bucket_dur

-- The buckets after a history of depths and their times, newest first.
unfoldable pub peaks_after : List (ℕ × ℕ) → List PeakBucket
peaks_after [] = []
peaks_after ((now, total) ∷ ns) = noted_peaks (peaks_after ns) now total

-- The greatest depth of a history that was noted in the bucket `c` or later.
abbrev pub recent_peak : ℕ → List (ℕ × ℕ) → ℕ
recent_peak c [] = 0
recent_peak c ((now, total) ∷ ns) =
    max (if leb c (bucket_of now) then total else 0) (recent_peak c ns)

abbrev pub IsInOrder : List (ℕ × ℕ) → Type 0
IsInOrder [] = Unit {0}
IsInOrder ((now, total) ∷ ns) = All (λ (n : ℕ × ℕ). n.0 ≤ now) ns × IsInOrder ns

best : ℕ → List PeakBucket → ℕ
best c [] = 0
best c (b ∷ bs) = max (if leb c b.start then b.max_vbytes else 0) (best c bs)

abbrev Ascending : List PeakBucket → Type 0
Ascending [] = Unit {0}
Ascending (b ∷ bs) = All (λ (d : PeakBucket). b.start ≤ d.start) bs × Ascending bs

abbrev AllUpTo : ℕ → List PeakBucket → Type 0
AllUpTo k bs = All (λ (d : PeakBucket). d.start ≤ k) bs

abbrev AllFrom : ℕ → List PeakBucket → Type 0
AllFrom k bs = All (λ (d : PeakBucket). k ≤ d.start) bs

best-note_last :
    (c bucket total : ℕ) (bs : List PeakBucket)
    → best c (note_last bs bucket total) ≡ max (best c bs) (if leb c bucket then total else 0)
unfolding best note_last
best-note_last c bucket total [] = omega arith
best-note_last c bucket total (b ∷ []) = elim (Bool-cases (b.start == bucket)) [
  | inl same ↦
      let e : b.start ≡ bucket = (==_iff b.start bucket).0 same in rw same (rw e (ground arith))
  | inr other ↦ rw other (omega arith)
]
best-note_last c bucket total (b ∷ d ∷ bs) = omega (arith, best-note_last c bucket total (d ∷ bs))

best-drop_old : (c k : ℕ) (bs : List PeakBucket) → k ≤ c → best c (drop_old k bs) ≡ best c bs
unfolding best drop_old
best-drop_old c k [] h = refl
best-drop_old c k (b ∷ bs) h = elim (Bool-cases (ltb b.start k)) [
  | inl old ↦ rw old (ground (arith, best-drop_old c k bs h))
  | inr new ↦ rw new refl
]

-- All buckets count from a start that none of them is before.
peak_from-best :
    (peak k : ℕ) (bs : List PeakBucket) → AllFrom k bs → peak_from peak bs ≡ max peak (best k bs)
unfolding peak_from best
peak_from-best peak k [] a = omega arith
peak_from-best peak k (b ∷ bs) (h, a) =
    ground (arith, peak_from-best (max peak b.max_vbytes) k bs a)

AllFrom-le : (k l : ℕ) (bs : List PeakBucket) → k ≤ l → AllFrom l bs → AllFrom k bs
AllFrom-le k l [] h a = tt
AllFrom-le k l (b ∷ bs) h (p, a) = (omega arith, AllFrom-le k l bs h a)

AllFrom-drop_old : (k : ℕ) (bs : List PeakBucket) → Ascending bs → AllFrom k (drop_old k bs)
unfolding drop_old
AllFrom-drop_old k [] s = tt
AllFrom-drop_old k (b ∷ bs) (p, s) = elim (Bool-cases (ltb b.start k)) [
  | inl old ↦ rw old (AllFrom-drop_old k bs s)
  | inr new ↦ let h : k ≤ b.start = ground arith in rw new (h, AllFrom-le k b.start bs h p)
]

Ascending-drop_old : (k : ℕ) (bs : List PeakBucket) → Ascending bs → Ascending (drop_old k bs)
unfolding drop_old
Ascending-drop_old k [] s = tt
Ascending-drop_old k (b ∷ bs) (p, s) = elim (Bool-cases (ltb b.start k)) [
  | inl old ↦ rw old (Ascending-drop_old k bs s)
  | inr new ↦ rw new (p, s)
]

AllUpTo-drop_old : (k l : ℕ) (bs : List PeakBucket) → AllUpTo l bs → AllUpTo l (drop_old k bs)
unfolding drop_old
AllUpTo-drop_old k l [] a = tt
AllUpTo-drop_old k l (b ∷ bs) (p, a) = elim (Bool-cases (ltb b.start k)) [
  | inl old ↦ rw old (AllUpTo-drop_old k l bs a)
  | inr new ↦ rw new (p, a)
]

AllFrom-note_last :
    (k bucket total : ℕ) (bs : List PeakBucket)
    → k ≤ bucket
    → AllFrom k bs
    → AllFrom k (note_last bs bucket total)
unfolding note_last
AllFrom-note_last k bucket total [] h a = (h, tt)
AllFrom-note_last k bucket total (b ∷ []) h (p, a) = elim (Bool-cases (b.start == bucket)) [
  | inl same ↦ rw same (p, tt)
  | inr other ↦ rw other (p, (h, tt))
]
AllFrom-note_last k bucket total (b ∷ d ∷ bs) h (p, a) =
    (p, AllFrom-note_last k bucket total (d ∷ bs) h a)

Ascending-note_last :
    (bucket total : ℕ) (bs : List PeakBucket)
    → AllUpTo bucket bs
    → Ascending bs
    → Ascending (note_last bs bucket total)
unfolding note_last
Ascending-note_last bucket total [] u s = (tt, tt)
Ascending-note_last bucket total (b ∷ []) (u, v) s = elim (Bool-cases (b.start == bucket)) [
  | inl same ↦ rw same (tt, tt)
  | inr other ↦ rw other ((u, tt), (tt, tt))
]
Ascending-note_last bucket total (b ∷ d ∷ bs) (u, v) (p, s) = (
  AllFrom-note_last b.start bucket total (d ∷ bs) u p,
  Ascending-note_last bucket total (d ∷ bs) v s,
)

AllUpTo-note_last :
    (bucket total : ℕ) (bs : List PeakBucket)
    → AllUpTo bucket bs
    → AllUpTo bucket (note_last bs bucket total)
unfolding note_last
AllUpTo-note_last bucket total [] u = (omega arith, tt)
AllUpTo-note_last bucket total (b ∷ []) (u, v) = elim (Bool-cases (b.start == bucket)) [
  | inl same ↦ rw same (u, tt)
  | inr other ↦ rw other (u, (omega arith, tt))
]
AllUpTo-note_last bucket total (b ∷ d ∷ bs) (u, v) = (u, AllUpTo-note_last bucket total (d ∷ bs) v)

AllUpTo-le : (k l : ℕ) (bs : List PeakBucket) → k ≤ l → AllUpTo k bs → AllUpTo l bs
AllUpTo-le k l [] h a = tt
AllUpTo-le k l (b ∷ bs) h (p, a) = (omega arith, AllUpTo-le k l bs h a)

bucket_of_mono : (t u : ℕ) → t ≤ u → bucket_of t ≤ bucket_of u
bucket_of_mono t u h = omega arith

-- Between two notes the buckets are in order, lie before now, and hold what a later reader counts.
record IsWindow (ns : List (ℕ × ℕ)) (now : ℕ) : Type 0 where
  ascending : Ascending (peaks_after ns)
  past : AllUpTo (bucket_of now) (peaks_after ns)
  exact : (c : ℕ) → first_bucket now ≤ c → best c (peaks_after ns) ≡ recent_peak c ns

best-noted_peaks :
    (c now total : ℕ) (bs : List PeakBucket)
    → first_bucket now ≤ c
    → best c (noted_peaks bs now total)
      ≡ max (best c bs) (if leb c (bucket_of now) then total else 0)
unfolding noted_peaks
best-noted_peaks c now total bs h =
    best-drop_old c (first_bucket now) (note_last bs (bucket_of now) total) h
    ∙ best-note_last c (bucket_of now) total bs

peaks_after-IsWindow :
    (ns : List (ℕ × ℕ)) (now : ℕ)
    → IsInOrder ns
    → All (λ (n : ℕ × ℕ). n.0 ≤ now) ns
    → IsWindow ns now
unfolding peaks_after noted_peaks best
peaks_after-IsWindow [] now o a = record { ascending = tt; past = tt; exact = λ c h. refl }
peaks_after-IsWindow ((t, total) ∷ ns) now (p, o) (le, a) =
    let w = peaks_after-IsWindow ns t o p in
    let bs = peaks_after ns in
    let later = bucket_of_mono t now le in
    record {
      ascending =
          Ascending-drop_old (first_bucket t) (note_last bs (bucket_of t) total)
            (Ascending-note_last (bucket_of t) total bs w.past w.ascending);
      past = AllUpTo-le (bucket_of t) (bucket_of now) _ later (
          AllUpTo-drop_old (first_bucket t) (bucket_of t) (note_last bs (bucket_of t) total)
            (AllUpTo-note_last (bucket_of t) total bs w.past));
      exact = λ c h.
          let from : first_bucket t ≤ c = omega arith in
          omega (arith, best-noted_peaks c t total bs from, w.exact c from);
    }

-- The peak that goes with a depth is the greatest of the depths noted in the last six buckets of
-- ten minutes, itself included, if the clock did not go back between the notes.
pub note_peak-exact :
    (f : Float) (m : Mempool f) (ns : List (ℕ × ℕ)) (now total : ℕ)
    → IsInOrder ((now, total) ∷ ns)
    → m.peaks ≡ peaks_after ns
    → (note_peak f m now total).1 ≡ recent_peak (first_bucket now) ((now, total) ∷ ns)
unfolding note_peak noted_peaks
note_peak-exact f m ns now total (p, o) e =
    let w = peaks_after-IsWindow ns now o p in
    let bs = peaks_after ns in
    let k = first_bucket now in
    let noted = note_last bs (bucket_of now) total in
    let from =
      AllFrom-drop_old k noted (Ascending-note_last (bucket_of now) total bs w.past w.ascending) in
    rw e (
      peak_from-best total k (drop_old k noted) from
      ∙ ground (
        arith,
        best-drop_old k k noted (omega arith),
        best-note_last k (bucket_of now) total bs,
        w.exact k (omega arith),
      ))
