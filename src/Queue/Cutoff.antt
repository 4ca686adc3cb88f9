-- ===== src/Queue/Cutoff.antt =====
-- internal/explorer/queue.go: the rate that still makes the next block.
use btcdwatch_com.Base.{
  ℕ, ◌+◌, ◌≤◌, ◌<◌, ◌≡◌, refl, ◌∙◌, List, [], ◌∷◌, true, false, arith, if◌then◌else◌, leb, length,
  inl, inr, Bool-cases,
}
use btcdwatch_com.Base.Float.{Float, IsOrder}
use btcdwatch_com.Base.Sort.{All, Sorted, Sorter, sum_by, sum_by-perm}
use btcdwatch_com.Snapshot.{Snapshot}
use btcdwatch_com.Queue.Bands.{higher-IsStrictWeak}
use btcdwatch_com.Queue.{
  Walk, visit, walk, higher, queue_of, queue_from_snapshot, entries, start, vbytes_per_block,
}

module _ (f : Float) where
  -- The bytes of an entry that pays more than `rate`.
  abbrev pub bytes_above : f.F → f.F × ℕ → ℕ
  bytes_above rate (r, v) = if f.lt rate r then v else 0

module _ (f : Float) (o : IsOrder f) where
  cutoff_stays :
      (es : List (f.F × ℕ)) (s : Walk f)
      → s.cutoff_seen ≡ true
      → (walk f s es).cutoff_rate ≡ s.cutoff_rate
  unfolding walk visit
  cutoff_stays [] s seen = refl
  cutoff_stays ((r, v) ∷ es) s seen = cutoff_stays es (visit f s r v) (ground arith) ∙ ground arith

  none_above :
      (rate : f.F) (v : ℕ) (es : List (f.F × ℕ))
      → All (λ y. higher f y (rate, v) ≡ false) es
      → sum_by (bytes_above f rate) es ≡ 0
  unfolding sum_by
  none_above rate v [] a = refl
  none_above rate v ((r, w) ∷ es) a = ground (arith, a.0, none_above rate v es a.1)

  above-le : (rate : f.F) (e : f.F × ℕ) → bytes_above f rate e ≤ e.1
  above-le rate (r, v) = ground arith

  walk_cutoff :
      (es : List (f.F × ℕ)) (s : Walk f)
      → Sorted (higher f) es
      → s.cutoff_seen ≡ false
      → s.cum < vbytes_per_block
      → s.cum + sum_by (bytes_above f (walk f s es).cutoff_rate) es < vbytes_per_block
  unfolding walk sum_by
  walk_cutoff [] s so unseen room = omega arith
  walk_cutoff ((r, v) ∷ es) s so unseen room =
      elim (Bool-cases (leb vbytes_per_block (s.cum + v))) [
        | inl full ↦ reached full
        | inr more ↦
            let later : t.cum + sum_by (bytes_above f (walk f t es).cutoff_rate) es
                < vbytes_per_block =
              walk_cutoff es t so.1 (unfold visit in ground (arith, more, unseen))
                (unfold visit in ground (arith, more)) in
            let cum : t.cum ≡ s.cum + v = unfold visit in refl in
            omega (arith, later, cum, above-le (walk f t es).cutoff_rate (r, v))
      ]
    where
      t : Walk f
      t = visit f s r v

      reached :
          leb vbytes_per_block (s.cum + v) ≡ true
          → s.cum
              + (bytes_above f (walk f t es).cutoff_rate (r, v)
                  + sum_by (bytes_above f (walk f t es).cutoff_rate) es)
            < vbytes_per_block
      reached full =
          let seen : t.cutoff_seen ≡ true = unfold visit in ground (arith, full, unseen) in
          let at : (walk f t es).cutoff_rate ≡ r =
            cutoff_stays es t seen ∙ unfold visit in ground (arith, full, unseen) in
          rw at (ground (arith, none_above r v es so.0, o.irrefl r))

  queue_of-cutoff :
      (count : ℕ) (es : List (f.F × ℕ))
      → Sorted (higher f) es
      → sum_by (bytes_above f (queue_of f count es).next_block_rate) es < vbytes_per_block
  unfolding queue_of sum_by
  queue_of-cutoff count [] so = omega arith
  queue_of-cutoff count (e ∷ es) so =
      omega (arith, walk_cutoff (e ∷ es) (start f (e ∷ es)) so refl (omega arith))

  -- Whoever pays the quoted next-block rate has less than one block of bytes ahead of it: the
  -- transactions that pay strictly more take up less than `vbytes_per_block`.
  pub next_block_rate-lt :
      (s : Sorter) (snapshot : Snapshot f)
      → sum_by
          (bytes_above f (queue_from_snapshot f s snapshot).next_block_rate)
          (entries f snapshot)
        < vbytes_per_block
  unfolding queue_from_snapshot
  next_block_rate-lt s snapshot =
      let es = s.sort (f.F × ℕ) (higher f) (entries f snapshot) in
      let rate = (queue_of f (length snapshot) es).next_block_rate in
      let short =
        queue_of-cutoff (length snapshot) es
          (s.sort-sorted (f.F × ℕ) (higher f) (higher-IsStrictWeak f o) (entries f snapshot)) in
      omega (
        arith,
        short,
        sum_by-perm (bytes_above f rate) (s.sort-perm (f.F × ℕ) (higher f) (entries f snapshot)),
      )
