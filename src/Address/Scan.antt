-- ===== src/Address/Scan.antt =====
-- internal/explorer/address.go: the totals are those of the history. btcd answers with the results
-- from the place asked on, as many as asked for, and with an error if there is none.
use btcdwatch_com.Base.{
  append_nil, ℕ, zero, suc, ◌+◌, ◌-◌, ◌/◌, ◌≤◌, ◌<◌, ◌≡◌, min, refl, sym, subst, ◌∙◌, ap, List, [],
  ◌∷◌, ◌++◌, Option, Bool, true, false, ltb, leb, ltb→lt, arith, length, take, drop, take_all,
  length-take, length-drop, length-append, inl, inr, Bool-cases,
}
use btcdwatch_com.Base.Int.{ℤ, pos, negsuc, ◌+ℤ◌, +ℤ_assoc, +ℤ_comm}
use btcdwatch_com.Base.Text.{Text}
use btcdwatch_com.Base.Action.{Result, ok, err}
use btcdwatch_com.Node.{Error, rpc, Codes, beq_ℤ, is_no_tx_info}
use btcdwatch_com.Rpc.{SearchResult}
use btcdwatch_com.Address.{
  AddressTotals, scan_chunk, address_delta, search_page, add_page, count_page, scan, on_page,
  page_of, no_totals, rounds,
}

take_nil : {A : Type 0} (n : ℕ) → take {A = A} n [] ≡ []
take_nil zero = refl
take_nil (suc n) = refl

drop_nil : {A : Type 0} (n : ℕ) → drop {A = A} n [] ≡ []
drop_nil zero = refl
drop_nil (suc n) = refl

take_more : {A : Type 0} (k n : ℕ) (xs : List A) → take (k + n) xs ≡ take k xs ++ take n (drop k xs)
take_more zero n xs = let e : 0 + n ≡ n = omega arith in rw e refl
take_more (suc k) n [] = take_nil (suc k + n) ∙ sym (take_nil n)
take_more (suc k) n (x ∷ xs) =
    let e : suc k + n ≡ suc (k + n) = omega arith in rw e (ap (λ ys. x ∷ ys) (take_more k n xs))

take_split :
    {A : Type 0} (k m : ℕ) (xs : List A) → take (min k m) xs ++ take (m - k) (drop k xs) ≡ take m xs
take_split k m xs = elim (Bool-cases (leb k m)) [
  | inl few ↦
      let e : min k m ≡ k = ground arith in
      let d : k + (m - k) ≡ m = ground arith in
      rw e (sym (take_more k (m - k) xs) ∙ ap (λ n. take n xs) d)
  | inr many ↦
      let e : min k m ≡ m = ground arith in
      let d : m - k ≡ 0 = ground arith in rw (e, d) (append_nil (take m xs))
]

-- A page that is short of its count is all that is left.
take_short :
    {A : Type 0} (k m : ℕ) (xs : List A)
    → ltb (length (take (min k m) xs)) (min k m) ≡ true
    → take (min k m) xs ≡ take m xs
take_short k m xs h =
    let few : length xs < min k m = omega (arith, length-take (min k m) xs, ltb→lt _ _ h) in
    take_all (min k m) xs (omega arith) ∙ sym (take_all m xs (omega arith))

drop-drop : {A : Type 0} (k m : ℕ) (xs : List A) → drop k (drop m xs) ≡ drop (m + k) xs
drop-drop k zero xs = let e : 0 + k ≡ k = omega arith in rw e refl
drop-drop k (suc m) [] = drop_nil k ∙ sym (drop_nil (suc m + k))
drop-drop k (suc m) (x ∷ xs) =
    let e : suc m + k ≡ suc (m + k) = omega arith in rw e (drop-drop k m xs)

+ℤ_zero_right : (a : ℤ) → a +ℤ pos 0 ≡ a
unfolding ◌+ℤ◌
+ℤ_zero_right a = ground arith

-- The page with these results as btcd answers: without a result it is the error of no information.
abbrev pub served :
    {B : Type 0} → Codes → List (SearchResult B) → Result Error (List (SearchResult B))
served codes [] = err (rpc codes.no_tx_info)
served codes (tx ∷ page) = ok (tx ∷ page)

beq_ℤ_refl : (a : ℤ) → beq_ℤ a a ≡ true
beq_ℤ_refl (pos n) = ground arith
beq_ℤ_refl (negsuc n) = ground arith

module _ {B : Type 0} (new_amount : B → Option ℤ) where
  -- What the transactions of a history paid to the address and spent from it.
  abbrev pub total_received : Text → List (SearchResult B) → ℤ
  total_received addr [] = pos 0
  total_received addr (tx ∷ h) = (address_delta new_amount addr tx).0 +ℤ total_received addr h

  abbrev pub total_sent : Text → List (SearchResult B) → ℤ
  total_sent addr [] = pos 0
  total_sent addr (tx ∷ h) = (address_delta new_amount addr tx).1 +ℤ total_sent addr h

  total_received-append :
      (addr : Text) (xs ys : List (SearchResult B))
      → total_received addr (xs ++ ys) ≡ total_received addr xs +ℤ total_received addr ys
  total_received-append addr [] ys = sym (+ℤ_comm (pos 0) _ ∙ +ℤ_zero_right _)
  total_received-append addr (x ∷ xs) ys =
      rw (total_received-append addr xs ys) (sym (+ℤ_assoc _ _ _))

  total_sent-append :
      (addr : Text) (xs ys : List (SearchResult B))
      → total_sent addr (xs ++ ys) ≡ total_sent addr xs +ℤ total_sent addr ys
  total_sent-append addr [] ys = sym (+ℤ_comm (pos 0) _ ∙ +ℤ_zero_right _)
  total_sent-append addr (x ∷ xs) ys = rw (total_sent-append addr xs ys) (sym (+ℤ_assoc _ _ _))

  module _ (codes : Codes) (search : ℕ → ℕ → Result Error (List (SearchResult B))) where
    add_page-received :
        (addr : Text) (page : List (SearchResult B)) (t : AddressTotals)
        → (add_page new_amount codes search addr t page).received_sats
          ≡ t.received_sats +ℤ total_received addr page
    unfolding add_page
    add_page-received addr [] t = sym (+ℤ_zero_right _)
    add_page-received addr (tx ∷ page) t = add_page-received addr page _ ∙ +ℤ_assoc _ _ _

    add_page-sent :
        (addr : Text) (page : List (SearchResult B)) (t : AddressTotals)
        → (add_page new_amount codes search addr t page).sent_sats
          ≡ t.sent_sats +ℤ total_sent addr page
    unfolding add_page
    add_page-sent addr [] t = sym (+ℤ_zero_right _)
    add_page-sent addr (tx ∷ page) t = add_page-sent addr page _ ∙ +ℤ_assoc _ _ _

    add_page-approximate :
        (addr : Text) (page : List (SearchResult B)) (t : AddressTotals)
        → (add_page new_amount codes search addr t page).approximate ≡ t.approximate
    unfolding add_page
    add_page-approximate addr [] t = refl
    add_page-approximate addr (tx ∷ page) t = add_page-approximate addr page _

    page_of-served :
        (page : List (SearchResult B))
        → page_of new_amount codes search (served codes page) ≡ ok page
    unfolding is_no_tx_info
    page_of-served [] = rw (beq_ℤ_refl codes.no_tx_info) refl
    page_of-served (tx ∷ page) = refl

    -- A scan that went well from `t` over the history `h`.
    abbrev pub IsScan :
        Text → AddressTotals → List (SearchResult B) → Bool → Result Error AddressTotals → Type 0
    IsScan addr t h more (err x) = ⊥
    IsScan addr t h more (ok u) =
        (u.received_sats ≡ t.received_sats +ℤ total_received addr h)
        × (u.sent_sats ≡ t.sent_sats +ℤ total_sent addr h)
        × (u.tx_count ≡ t.tx_count + length h)
        × (u.approximate ≡ more)

    IsScan-count_page :
        (addr : Text) (t : AddressTotals) (page rest : List (SearchResult B)) (more : Bool)
        (u : Result Error AddressTotals)
        → IsScan addr (count_page new_amount codes search addr t page) rest more u
        → IsScan addr t (page ++ rest) more u
    IsScan-count_page addr t page rest more (err x) s = s
    IsScan-count_page addr t page rest more (ok u) (r, p, n, a) = (
      r
          ∙ ap (λ x. x +ℤ total_received addr rest) (add_page-received addr page t)
          ∙ +ℤ_assoc _ _ _
          ∙ ap (λ x. t.received_sats +ℤ x) (sym (total_received-append addr page rest)),
      p
          ∙ ap (λ x. x +ℤ total_sent addr rest) (add_page-sent addr page t)
          ∙ +ℤ_assoc _ _ _
          ∙ ap (λ x. t.sent_sats +ℤ x) (sym (total_sent-append addr page rest)),
      omega (arith, n, length-append page rest),
      a,
    )

    on_page-IsScan :
        (addr : Text) (now count : ℕ) (t : AddressTotals)
        (loop : AddressTotals → Result Error AddressTotals) (page rest h : List (SearchResult B))
        (more : Bool)
        → t.approximate ≡ false
        → (ltb (length page) count ≡ true → (page ≡ h) × (more ≡ false))
        → (ltb (length page) count ≡ false
            → (page ++ rest ≡ h)
              × IsScan addr
                  (count_page new_amount codes search addr t page)
                  rest
                  more
                  (loop (count_page new_amount codes search addr t page)))
        → IsScan addr t h more (on_page new_amount codes search addr now count t loop (ok page))
    unfolding on_page
    on_page-IsScan addr now count t loop page rest h more a last next =
        elim (Bool-cases (ltb (length page) count)) [
          | inl short ↦
              let (same, no_more) = last short in
              rw (short, ← same, no_more)
                (
                  add_page-received addr page t,
                  add_page-sent addr page t,
                  refl,
                  add_page-approximate addr page t ∙ a,
                )
          | inr long ↦
              let (same, s) = next long in
              rw (long, ← same) (IsScan-count_page addr t page rest more _ s)
        ]

    scan-IsScan :
        (addr : Text) (max_scan now left skip : ℕ) (t : AddressTotals) (h : List (SearchResult B))
        → ((i n : ℕ) → search i n ≡ served codes (take n (drop i h)))
        → left ≡ (max_scan - skip + 99) / 100
        → min skip max_scan ≤ length h
        → t.approximate ≡ false
        → IsScan addr t
            (take (max_scan - skip) (drop skip h))
            (leb max_scan (length h))
            (scan new_amount codes search addr max_scan now left skip t)
    unfolding scan search_page
    scan-IsScan addr max_scan now zero skip t h serves e full a =
        let none_left : max_scan - skip ≡ 0 = omega arith in
        rw none_left (sym (+ℤ_zero_right _), sym (+ℤ_zero_right _), omega arith, ground arith)
    scan-IsScan addr max_scan now (suc left) skip t h serves e full a =
        let count = min scan_chunk (max_scan - skip) in
        let page = take count (drop skip h) in
        let pages = length-take count (drop skip h) in
        let left_over = length-drop skip h in
        let less : max_scan - (skip + 100) ≡ max_scan - skip - 100 = omega arith in
        let joined : page ++ take (max_scan - (skip + 100)) (drop (skip + 100) h)
            ≡ take (max_scan - skip) (drop skip h) =
          rw (less, ← drop-drop 100 skip h) (take_split 100 (max_scan - skip) (drop skip h)) in
        subst
          (λ (o : Result Error (List (SearchResult B))).
            IsScan addr t (take (max_scan - skip) (drop skip h)) (leb max_scan (length h)) (
              on_page new_amount codes search addr now count t
                (λ u. scan new_amount codes search addr max_scan now left (skip + scan_chunk) u) o))
          (sym (ap (page_of new_amount codes search) (serves skip count) ∙ page_of-served page))
          (on_page-IsScan addr now count t
            (λ u. scan new_amount codes search addr max_scan now left (skip + scan_chunk) u) page
            (take (max_scan - (skip + 100)) (drop (skip + 100) h)) _ _ a
            (λ short. (
              take_short scan_chunk (max_scan - skip) (drop skip h) short,
              ground (arith, pages, left_over),
            ))
            (λ long. (
              joined,
              scan-IsScan addr max_scan now left (skip + scan_chunk)
                  (count_page new_amount codes search addr t page) h serves (omega (arith, e))
                  (ground (arith, pages, left_over)) (add_page-approximate addr page t ∙ a),
            )))

    -- If the node serves the pages of a history, newest first, and answers with the error of no
    -- information where there is nothing left of it, then the scan succeeds, and its totals are those
    -- of the newest transactions up to the cap; they are flagged approximate exactly if the history is
    -- at the cap or beyond.
    pub scan-exact :
        (addr : Text) (max_scan now : ℕ) (h : List (SearchResult B))
        → ((i n : ℕ) → search i n ≡ served codes (take n (drop i h)))
        → IsScan addr no_totals
            (take max_scan h)
            (leb max_scan (length h))
            (scan new_amount codes search addr max_scan now (rounds max_scan) 0 no_totals)
    scan-exact addr max_scan now h serves =
        let whole : max_scan - 0 ≡ max_scan = omega arith in
        subst
          (λ n.
            IsScan addr no_totals (take n h) (leb max_scan (length h))
              (scan new_amount codes search addr max_scan now (rounds max_scan) 0 no_totals))
          whole
          (scan-IsScan addr max_scan now (rounds max_scan) 0 no_totals h serves (omega arith)
            (omega arith) refl)
