-- ===== src/Queue/Bands.antt =====
-- internal/explorer/queue.go: each band holds the bytes of the rates that fall into it.
use btcdwatch_com.Base.{
  ℕ, zero, suc, ◌+◌, ◌-◌, ◌≤◌, ◌<◌, ◌≡◌, refl, sym, ◌∙◌, List, [], ◌∷◌, true, false, arith,
  if◌then◌else◌, ◌==◌, ==_iff, length, get_or, replicate, length-set, inl, inr, Bool-cases,
}
use btcdwatch_com.Base.Float.{Float, IsOrder}
use btcdwatch_com.Base.Sort.{All, Sorted, Sorter, IsStrictWeak, sum_by, sum_by-perm}
use btcdwatch_com.Snapshot.{Snapshot}
use btcdwatch_com.Base.Counts.{get_or-set, get_or-replicate}
use btcdwatch_com.Queue.{
  Walk, advance, min_at, last_band, visit, walk, higher, QueueBand, bands_from, queue_of,
  queue_from_snapshot, entries, start,
}

module _ (f : Float) where
  -- The first band whose lower bound the rate reaches, or the last.
  unfoldable pub band_of : f.F → ℕ
  band_of rate = advance f rate (last_band f) 0

  -- The rate lies below the bounds of all bands in front of `b`.
  abbrev pub IsBehind : ℕ → f.F → Type 0
  IsBehind b rate = (i : ℕ) → i < b → f.lt rate (min_at f i) ≡ true

  -- The bytes that an entry adds to a band.
  abbrev pub in_band : ℕ → f.F × ℕ → ℕ
  in_band i (rate, vsize) = if band_of rate == i then vsize else 0

  -- The bytes of a band in the payload.
  abbrev pub vbytes_at : List (QueueBand f) → ℕ → ℕ
  vbytes_at [] i = 0
  vbytes_at (b ∷ bs) zero = b.vbytes
  vbytes_at (b ∷ bs) (suc i) = vbytes_at bs i

module _ (f : Float) (o : IsOrder f) where
  advance_skip :
      (rate : f.F) (b left : ℕ)
      → IsBehind f b rate
      → b + left ≡ 4
      → advance f rate left b ≡ band_of f rate
  unfolding band_of
  advance_skip rate zero left behind e = let same : left ≡ 4 = omega arith in rw same
  advance_skip rate (suc b) left behind e =
      let back : advance f rate (suc left) b ≡ band_of f rate =
        advance_skip rate b (suc left) (λ i lt. behind i (omega arith)) (omega arith) in
      sym (advance_past rate b left (behind b (omega arith))) ∙ back
    where
      advance_past :
          (r : f.F) (c n : ℕ)
          → f.lt r (min_at f c) ≡ true
          → advance f r (suc n) c ≡ advance f r n (suc c)
      advance_past r c n low = unfold advance in rw low

  one_more :
      (rate : f.F) (b : ℕ)
      → IsBehind f b rate
      → f.lt rate (min_at f b) ≡ true
      → IsBehind f (suc b) rate
  one_more rate b h low i lt = elim (Bool-cases (i == b)) [
    | inl same ↦ let e : i ≡ b = (==_iff i b).0 same in rw e low
    | inr before ↦ h i (ground arith)
  ]

  advance-IsBehind :
      (rate : f.F) (left b : ℕ) → IsBehind f b rate → IsBehind f (advance f rate left b) rate
  unfolding advance
  advance-IsBehind rate zero b h = h
  advance-IsBehind rate (suc left) b h = elim (Bool-cases (f.lt rate (min_at f b))) [
    | inl low ↦ rw low (advance-IsBehind rate left (suc b) (λ i lt. one_more rate b h low i lt))
    | inr there ↦ rw there h
  ]

  advance-le : (rate : f.F) (left b : ℕ) → advance f rate left b ≤ b + left
  unfolding advance
  advance-le rate zero b = omega arith
  advance-le rate (suc left) b = ground (arith, advance-le rate left (suc b))

  -- In the sorted list no later rate is above an earlier one, so it is behind the same bands.
  IsBehind-later :
      (b : ℕ) (rate later : f.F) → f.lt rate later ≡ false → IsBehind f b rate → IsBehind f b later
  IsBehind-later b rate later h behind i lt = elim (Bool-cases (f.lt later (min_at f i))) [
    | inl below ↦ below
    | inr not_below ↦ cc (behind i lt, o.le_trans (min_at f i) later rate not_below h)
  ]

  IsBehind-rest :
      (b : ℕ) (rate : f.F) (vsize : ℕ) (es : List (f.F × ℕ))
      → IsBehind f b rate
      → All (λ y. higher f y (rate, vsize) ≡ false) es
      → All (λ y. IsBehind f b y.0) es
  IsBehind-rest b rate vsize [] h a = tt
  IsBehind-rest b rate vsize ((r, v) ∷ es) h a =
      (IsBehind-later b rate r a.0 h, IsBehind-rest b rate vsize es h a.1)

  -- The walk adds to each band the sizes of the entries whose rates fall into it.
  walk_vbytes :
      (es : List (f.F × ℕ)) (s : Walk f) (i : ℕ)
      → Sorted (higher f) es
      → All (λ y. IsBehind f s.band y.0) es
      → s.band ≤ 4
      → length s.vbytes ≡ 5
      → get_or (walk f s es).vbytes i 0 ≡ get_or s.vbytes i 0 + sum_by (in_band f i) es
  unfolding walk visit sum_by
  walk_vbytes [] s i so be le five = omega arith
  walk_vbytes ((rate, vsize) ∷ es) s i so be le five =
      let b = advance f rate (4 - s.band) s.band in
      let t = visit f s rate vsize in
      let here : b ≡ band_of f rate = advance_skip rate s.band (4 - s.band) be.0 (omega arith) in
      let fits : b ≤ 4 = omega (arith, advance-le rate (4 - s.band) s.band) in
      let behind = advance-IsBehind rate (4 - s.band) s.band be.0 in
      let rest =
        walk_vbytes es t i so.1 (IsBehind-rest b rate vsize es behind so.0) fits
          (length-set s.vbytes b (get_or s.vbytes b 0 + vsize) ∙ five) in
      ground
        (arith, rest, here, get_or-set s.vbytes b i (get_or s.vbytes b 0 + vsize) (omega arith))

  pub walk_total :
      (es : List (f.F × ℕ)) (s : Walk f)
      → (walk f s es).total ≡ s.total + sum_by (λ (y : f.F × ℕ). y.1) es
  unfolding walk visit sum_by
  walk_total [] s = omega arith
  walk_total ((rate, vsize) ∷ es) s = omega (arith, walk_total es (visit f s rate vsize))

  length-walk : (es : List (f.F × ℕ)) (s : Walk f) → length (walk f s es).vbytes ≡ length s.vbytes
  unfolding walk visit
  length-walk [] s = refl
  length-walk ((rate, vsize) ∷ es) s =
      let b = advance f rate (4 - s.band) s.band in
      length-walk es (visit f s rate vsize) ∙ length-set s.vbytes b (get_or s.vbytes b 0 + vsize)

  pub higher-IsStrictWeak : IsStrictWeak (higher f)
  higher-IsStrictWeak = record {
    irrefl = λ a. o.irrefl a.0;
    trans = λ a b c p q. o.trans c.0 b.0 a.0 q p;
    le_trans = λ a b c p q. o.le_trans c.0 b.0 a.0 q p;
  }

  bands_from-vbytes :
      (top : f.F) (mins : List f.F) (vs : List ℕ) (i : ℕ)
      → length mins ≡ length vs
      → vbytes_at f (bands_from f top mins vs) i ≡ get_or vs i 0
  unfolding bands_from
  bands_from-vbytes top [] [] i e = refl
  bands_from-vbytes top [] (v ∷ vs) i e = absurd (omega arith)
  bands_from-vbytes top (lo ∷ mins) [] i e = absurd (omega arith)
  bands_from-vbytes top (lo ∷ mins) (v ∷ vs) zero e = refl
  bands_from-vbytes top (lo ∷ mins) (v ∷ vs) (suc i) e =
      bands_from-vbytes lo mins vs i (omega arith)

  no_band_in_front : (es : List (f.F × ℕ)) → All (λ y. IsBehind f 0 y.0) es
  no_band_in_front [] = tt
  no_band_in_front (x ∷ es) = (λ i lt. elim lt [ ], no_band_in_front es)

  queue_of-vbytes :
      (count : ℕ) (es : List (f.F × ℕ)) (i : ℕ)
      → Sorted (higher f) es
      → i < 5
      → (vbytes_at f (queue_of f count es).bands i ≡ sum_by (in_band f i) es)
        × ((queue_of f count es).total_vbytes ≡ sum_by (λ (y : f.F × ℕ). y.1) es)
        × ((queue_of f count es).tx_count ≡ count)
  unfolding queue_of sum_by
  queue_of-vbytes count [] i so lt =
      (bands_from-vbytes _ _ (replicate 5 0) i refl ∙ get_or-replicate 5 i 0, refl, refl)
  queue_of-vbytes count (e ∷ es) i so lt =
      let s = start f (e ∷ es) in
      (
        bands_from-vbytes _ _ (walk f s (e ∷ es)).vbytes i (sym (length-walk (e ∷ es) s))
            ∙ walk_vbytes (e ∷ es) s i so (no_band_in_front (e ∷ es)) (omega arith) refl
            ∙ omega (arith, get_or-replicate 5 i 0),
        walk_total (e ∷ es) s ∙ omega arith,
        refl,
      )

  -- Whatever the order of the snapshot, a band holds exactly the bytes of the transactions whose
  -- rate reaches its lower bound and no higher band's (in the last band: of all that are left), and
  -- the total is that of the snapshot.
  pub queue-exact :
      (s : Sorter) (snapshot : Snapshot f) (i : ℕ)
      → i < 5
      → (vbytes_at f (queue_from_snapshot f s snapshot).bands i
          ≡ sum_by (in_band f i) (entries f snapshot))
        × ((queue_from_snapshot f s snapshot).total_vbytes
            ≡ sum_by (λ (y : f.F × ℕ). y.1) (entries f snapshot))
        × ((queue_from_snapshot f s snapshot).tx_count ≡ length snapshot)
  unfolding queue_from_snapshot
  queue-exact s snapshot i lt =
      let es = s.sort (f.F × ℕ) (higher f) (entries f snapshot) in
      let same = s.sort-perm (f.F × ℕ) (higher f) (entries f snapshot) in
      let (v, t, n) =
        queue_of-vbytes (length snapshot) es i
          (s.sort-sorted (f.F × ℕ) (higher f) higher-IsStrictWeak (entries f snapshot)) lt in
      (v ∙ sum_by-perm (in_band f i) same, t ∙ sum_by-perm (λ (y : f.F × ℕ). y.1) same, n)
