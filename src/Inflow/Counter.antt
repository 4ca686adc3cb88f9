-- ===== src/Inflow/Counter.antt =====
-- internal/explorer/inflow.go: the counter counts the events of the last six slots.
use btcdwatch_com.Base.Counts.{get_or-replicate}
use btcdwatch_com.Base.{
  ℕ, zero, suc, ◌+◌, ◌-◌, ◌*◌, ◌%◌, ◌≤◌, ◌<◌, ◌≡◌, refl, sym, ◌∙◌, List, [], ◌∷◌, arith, leb, min,
  max, inl, inr, Bool-cases, length, get_or, set, subst, some, map, ap,
}
use btcdwatch_com.Base.Float.{Float}
use btcdwatch_com.Inflow.Window.{
  Tracks, AllLe, AllLe-mono, recent, set-Tracks, bump-Tracks, hits-ahead, hits-sum,
}
use btcdwatch_com.Inflow.{
  InflowCounter, second, bucket_seconds, start_at, slot_of, rate, noted, new, zero_buckets, rotate,
  bump, note, rate_since, sum, window, rate_per_min,
}

zero_buckets-Tracks :
    (left base i : ℕ) (counts es : List ℕ)
    → Tracks counts (base + i) es
    → Tracks (zero_buckets left base (i + 1) counts) (base + i + left) es
unfolding zero_buckets
zero_buckets-Tracks zero base i counts es t =
    let e : base + i ≡ base + i + 0 = omega arith in subst (λ s. Tracks counts s es) e t
zero_buckets-Tracks (suc left) base i counts es t =
    let e : base + i + 1 ≡ base + (i + 1) = omega arith in
    let f : base + (i + 1) + left ≡ base + i + suc left = omega arith in
    let next =
      subst (λ s. Tracks (set counts (s % 6) 0) s es) e (set-Tracks counts (base + i) es t) in
    subst (λ s. Tracks (zero_buckets (suc left) base (i + 1) counts) s es) f
      (zero_buckets-Tracks left base (i + 1) _ es next)

zero_buckets-Tracks_start :
    (left base s : ℕ) (counts es : List ℕ)
    → base + left ≡ s
    → Tracks counts base es
    → Tracks (zero_buckets left base 1 counts) s es
zero_buckets-Tracks_start left base s counts es e t =
    let e' : base ≡ base + 0 = omega arith in
    let f : base + 0 + left ≡ s = omega arith in
    subst (λ x. Tracks (zero_buckets left base 1 counts) x es) f
      (zero_buckets-Tracks left base 0 counts es (subst (λ x. Tracks counts x es) e' t))

-- After six rounds every bucket is empty, and stays so however far the slot jumps.
jump-Tracks :
    (s t : ℕ) (counts es : List ℕ)
    → AllLe es s
    → s + 6 ≤ t
    → Tracks counts (s + 6) es
    → Tracks counts t es
jump-Tracks s t counts es a h tr = record {
  six = tr.six;
  past = AllLe-mono es h tr.past;
  exact = λ i lt.
      tr.exact i lt ∙ hits-ahead i s es a (s + 6) (omega arith) ∙ sym (hits-ahead i s es a t h);
}

abbrev pub TracksCounter : InflowCounter → List ℕ → Type 0
TracksCounter c es = Tracks c.counts c.slot es

pub rotate-Tracks :
    (c : InflowCounter) (slot : ℕ) (es : List ℕ)
    → TracksCounter c es
    → TracksCounter (rotate c slot) es
unfolding rotate
rotate-Tracks c slot es t = elim (Bool-cases (leb slot c.slot)) [
  | inl old ↦ rw old t
  | inr new ↦ rw new (elim (Bool-cases (leb (slot - c.slot) 6)) [
    | inl near ↦
        zero_buckets-Tracks_start (min (slot - c.slot) 6) c.slot slot c.counts es (ground arith) t
    | inr far ↦
        let six : min (slot - c.slot) 6 ≡ 6 = ground arith in
        rw six (
          jump-Tracks c.slot slot _ es t.past (ground arith)
            (zero_buckets-Tracks_start 6 c.slot (c.slot + 6) c.counts es refl t))
  ])
]

pub rotate-slot : (c : InflowCounter) (slot : ℕ) → (rotate c slot).slot ≡ max c.slot slot
unfolding rotate
rotate-slot c slot = ground arith

pub note-Tracks :
    (c : InflowCounter) (now : ℕ) (es : List ℕ)
    → c.slot < slot_of now + 6
    → TracksCounter c es
    → TracksCounter (note c now) (slot_of now ∷ es)
unfolding note bump
note-Tracks c now es h t =
    let c' = record c { started = start_at c.started now } in
    bump-Tracks (rotate c' (slot_of now)).counts (rotate c' (slot_of now)).slot (slot_of now) es
      (omega (arith, rotate-slot c' (slot_of now))) (omega (arith, rotate-slot c' (slot_of now)))
      (rotate-Tracks c' (slot_of now) es t)

note-slot : (c : InflowCounter) (now : ℕ) → (note c now).slot ≡ max c.slot (slot_of now)
unfolding note
note-slot c now = rotate-slot (record c { started = start_at c.started now }) (slot_of now)

new-Tracks : TracksCounter new []
unfolding new
new-Tracks = record { six = refl; past = tt; exact = λ i h. get_or-replicate 6 i 0 }

-- A history, newest first, during which the clock never went back.
abbrev pub IsChronological : List ℕ → Type 0
IsChronological [] = Unit {0}
IsChronological (t ∷ ts) = AllLe ts t × IsChronological ts

noted-slot : (ts : List ℕ) (t : ℕ) → AllLe ts t → (noted ts).slot ≤ slot_of t
unfolding noted new
noted-slot [] t a = omega arith
noted-slot (u ∷ ts) t a = omega (arith, note-slot (noted ts) u, noted-slot ts t a.1)

noted-Tracks : (ts : List ℕ) → IsChronological ts → TracksCounter (noted ts) (map slot_of ts)
unfolding noted
noted-Tracks [] h = new-Tracks
noted-Tracks (t ∷ ts) h =
    note-Tracks (noted ts) t (map slot_of ts) (omega (arith, noted-slot ts t h.0))
      (noted-Tracks ts h.1)

sum_of_six :
    (xs : List ℕ)
    → length xs ≡ 6
    → sum xs
      ≡ get_or xs 0 0
        + get_or xs 1 0
        + get_or xs 2 0
        + get_or xs 3 0
        + get_or xs 4 0
        + get_or xs 5 0
unfolding sum
sum_of_six (a ∷ b ∷ c ∷ d ∷ e ∷ f ∷ []) h = omega arith
sum_of_six _ h = absurd (omega arith)

sum-Tracks : (counts es : List ℕ) (s : ℕ) → Tracks counts s es → sum counts ≡ recent s es
sum-Tracks counts es s t = omega (
  arith,
  sum_of_six counts t.six,
  t.exact 0 (omega arith),
  t.exact 1 (omega arith),
  t.exact 2 (omega arith),
  t.exact 3 (omega arith),
  t.exact 4 (omega arith),
  t.exact 5 (omega arith),
  hits-sum s es,
)

-- Whatever events were noted, in the order of the clock, the rate that is read at `now` is that of
-- the events whose ten-second slot is one of the last six.
pub rate_per_min-recent :
    (f : Float) (ts : List ℕ) (started now : ℕ)
    → IsChronological ts
    → AllLe ts now
    → (noted ts).started ≡ some started
    → (rate_per_min f (noted ts) now).1
      ≡ rate f (recent (slot_of now) (map slot_of ts)) (window started now)
unfolding rate_per_min
rate_per_min-recent f ts started now h a e =
    let c = noted ts in
    let d = rotate c (slot_of now) in
    let now_slot : d.slot ≡ slot_of now =
      omega (arith, rotate-slot c (slot_of now), noted-slot ts now a) in
    let tracked : Tracks d.counts (slot_of now) (map slot_of ts) =
      subst (λ s. Tracks d.counts s (map slot_of ts)) now_slot
        (rotate-Tracks c (slot_of now) (map slot_of ts) (noted-Tracks ts h)) in
    subst
      (λ s.
        (rate_since f c now s).1
        ≡ rate f (recent (slot_of now) (map slot_of ts)) (window started now))
      (sym e)
      (ap (λ n. rate f n (window started now))
        (sum-Tracks d.counts (map slot_of ts) (slot_of now) tracked))

-- The divisor of the rate is never below ten seconds nor above a minute.
pub window_bounds :
    (started now : ℕ)
    → (bucket_seconds * second ≤ window started now) × (window started now ≤ 60 * second)
unfolding window
window_bounds started now = (omega arith, omega arith)
