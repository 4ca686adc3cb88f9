-- ===== src/Tx/Rows.antt =====
-- internal/explorer/tx.go: the rows of the outputs, one by one.
use btcdwatch_com.Base.{
  ◌≡◌, refl, sym, ◌∙◌, ap, List, [], ◌∷◌, ◌++◌, map, Option, Bool, true, false, ◌&&◌, arith,
  if◌then◌else◌, Eq, append_nil, append_assoc, inl, inr, Bool-cases,
}
use btcdwatch_com.Base.Int.{ℤ}
use btcdwatch_com.Base.Map.{elem}
use btcdwatch_com.Base.Text.{Text}
use btcdwatch_com.Rpc.{Vout, sats_from_btc, vout_addrs}
use btcdwatch_com.Tx.{
  TxIo, Derived, no_outputs, is_empty, first_addr, book, is_change, derive_output, derive_loop,
  count_all, unflag, derive_outputs, add_new, add_to,
}

is_empty-snoc : (xs : List Text) (a : Text) → is_empty (xs ++ a ∷ []) ≡ false
is_empty-snoc [] a = refl
is_empty-snoc (x ∷ xs) a = refl

module _ ⦃e : Eq Text⦄ where
  add_new-grows : (addrs to : List Text) → is_empty to ≡ false → is_empty (add_new addrs to) ≡ false
  unfolding add_new
  add_new-grows [] to h = h
  add_new-grows (a ∷ addrs) to h = elim (Bool-cases (elem a to)) [
    | inl there ↦ rw there (add_new-grows addrs to h)
    | inr fresh ↦ rw fresh (add_new-grows addrs (to ++ a ∷ []) (is_empty-snoc to a))
  ]

  add_new-some : (a : Text) (addrs to : List Text) → is_empty (add_new (a ∷ addrs) to) ≡ false
  unfolding add_new elem
  add_new-some a addrs [] = add_new-grows addrs (a ∷ []) refl
  add_new-some a addrs (t ∷ to) = add_new-grows (a ∷ addrs) (t ∷ to) refl

  add_to-some : (addrs to : List Text) → is_empty (add_to addrs to) ≡ false
  add_to-some [] to = add_new-some _ [] to
  add_to-some (a ∷ addrs) to = add_new-some a addrs to

module _ {B : Type 0} ⦃e : Eq Text⦄ where
  book-rows :
      (v : Vout B) (sats : ℤ) (d : Derived) (change : Bool)
      → (book v sats d change).rows
        ≡ d.rows
          ++ record { address = first_addr (vout_addrs v); amount_sats = sats; change = change }
            ∷ []
  unfolding book
  book-rows v sats d true = refl
  book-rows v sats d false = refl

  book-to :
      (v : Vout B) (sats : ℤ) (d : Derived) (change : Bool)
      → is_empty (book v sats d change).to_addrs ≡ (is_empty d.to_addrs && change)
  unfolding book
  book-to v sats d true = ground arith
  book-to v sats d false = add_to-some (vout_addrs v) d.to_addrs ∙ ground arith

  count_all-rows : (vs : List (Vout B)) (d : Derived) → (count_all d vs).rows ≡ d.rows
  unfolding count_all
  count_all-rows [] d = refl
  count_all-rows (v ∷ vs) d = count_all-rows vs _

module _ {B : Type 0} (new_amount : B → Option ℤ) ⦃e : Eq Text⦄ (from : List Text)
    (coinbase : Bool) where
  -- The row of an output: its first address, its amount, and whether it goes back to the senders.
  abbrev pub made : Vout B → TxIo
  made v = record {
    address = first_addr (vout_addrs v);
    amount_sats = sats_from_btc new_amount v.value;
    change = is_change from coinbase (vout_addrs v);
  }

  abbrev pub all_change : List (Vout B) → Bool
  all_change [] = true
  all_change (v ∷ vs) = is_change from coinbase (vout_addrs v) && all_change vs

  -- The rows of the outputs in their order. If all go back to the senders, none counts as change.
  abbrev pub rows_made : List (Vout B) → List TxIo
  rows_made vs = if all_change vs then unflag (map made vs) else map made vs

  derive_loop-rows :
      (vs : List (Vout B)) (d : Derived)
      → (derive_loop new_amount from coinbase d vs).rows ≡ d.rows ++ map made vs
  unfolding derive_loop derive_output
  derive_loop-rows [] d = sym (append_nil d.rows)
  derive_loop-rows (v ∷ vs) d =
      derive_loop-rows vs (derive_output new_amount from coinbase d v)
      ∙ ap (λ rows. rows ++ map made vs) (book-rows v _ d _)
      ∙ append_assoc d.rows (made v ∷ []) (map made vs)

  derive_loop-to :
      (vs : List (Vout B)) (d : Derived)
      → is_empty (derive_loop new_amount from coinbase d vs).to_addrs
        ≡ (is_empty d.to_addrs && all_change vs)
  unfolding derive_loop derive_output
  derive_loop-to [] d = ground arith
  derive_loop-to (v ∷ vs) d =
      derive_loop-to vs (derive_output new_amount from coinbase d v)
      ∙ ground (
        arith,
        book-to v (sats_from_btc new_amount v.value) d (is_change from coinbase (vout_addrs v)),
      )

  pub derive_outputs-rows :
      (vs : List (Vout B)) → (derive_outputs new_amount from coinbase vs).rows ≡ rows_made vs
  unfolding derive_outputs
  derive_outputs-rows vs =
      let d = derive_loop new_amount from coinbase no_outputs vs in
      let rows : d.rows ≡ map made vs = derive_loop-rows vs no_outputs in
      let to : is_empty d.to_addrs ≡ all_change vs = derive_loop-to vs no_outputs in
      elim (Bool-cases (is_empty d.to_addrs)) [
        | inl none ↦
            let all : all_change vs ≡ true = sym to ∙ none in
            rw (none, all) (count_all-rows vs _ ∙ ap unflag rows)
        | inr others ↦
            let not_all : all_change vs ≡ false = sym to ∙ others in rw (others, not_all) rows
      ]
