-- ===== src/Tx/Outputs.antt =====
-- internal/explorer/tx.go: the headline amount, the rows and the fee agree.
use btcdwatch_com.Base.{
  ℕ, ◌+◌, ◌≡◌, refl, sym, ◌∙◌, ap, List, [], ◌∷◌, ◌++◌, Option, Bool, true, false, arith,
  if◌then◌else◌, Eq, length, length-append, inl, inr, Bool-cases,
}
use btcdwatch_com.Base.Int.{ℤ, pos, ◌+ℤ◌, +ℤ_assoc, +ℤ_comm}
use btcdwatch_com.Base.Text.{Text}
use btcdwatch_com.Rpc.{Vout, sats_from_btc, vout_addrs}
use btcdwatch_com.Tx.{
  TxIo, Derived, no_outputs, is_empty, book, is_change, derive_output, derive_loop, count_all,
  unflag, self_send, derive_outputs,
}

-- What the rows of the card that are not change come to.
abbrev pub sum_unflagged : List TxIo → ℤ
sum_unflagged [] = pos 0
sum_unflagged (r ∷ rows) = (if r.change then pos 0 else r.amount_sats) +ℤ sum_unflagged rows

abbrev pub sum_rows : List TxIo → ℤ
sum_rows [] = pos 0
sum_rows (r ∷ rows) = r.amount_sats +ℤ sum_rows rows

sum_unflagged-snoc :
    (rows : List TxIo) (r : TxIo)
    → sum_unflagged (rows ++ r ∷ [])
      ≡ sum_unflagged rows +ℤ (if r.change then pos 0 else r.amount_sats)
sum_unflagged-snoc [] r = +ℤ_comm (if r.change then pos 0 else r.amount_sats) (pos 0)
sum_unflagged-snoc (x ∷ rows) r =
    rw (sum_unflagged-snoc rows r)
      (sym (+ℤ_assoc (if x.change then pos 0 else x.amount_sats) (sum_unflagged rows) _))

pub sum_rows-snoc :
    (rows : List TxIo) (r : TxIo) → sum_rows (rows ++ r ∷ []) ≡ sum_rows rows +ℤ r.amount_sats
sum_rows-snoc [] r = +ℤ_comm r.amount_sats (pos 0)
sum_rows-snoc (x ∷ rows) r =
    rw (sum_rows-snoc rows r) (sym (+ℤ_assoc x.amount_sats (sum_rows rows) r.amount_sats))

-- The amounts of the outputs as btcd reports them.
module _ {B : Type 0} (new_amount : B → Option ℤ) where
  abbrev pub sum_vouts : List (Vout B) → ℤ
  sum_vouts [] = pos 0
  sum_vouts (v ∷ vs) = sats_from_btc new_amount v.value +ℤ sum_vouts vs

sum_unflagged-unflag : (rows : List TxIo) → sum_unflagged (unflag rows) ≡ sum_rows rows
sum_unflagged-unflag [] = refl
sum_unflagged-unflag (r ∷ rows) = rw (sum_unflagged-unflag rows)

sum_rows-unflag : (rows : List TxIo) → sum_rows (unflag rows) ≡ sum_rows rows
sum_rows-unflag [] = refl
sum_rows-unflag (r ∷ rows) = rw (sum_rows-unflag rows)

length-unflag : (rows : List TxIo) → length (unflag rows) ≡ length rows
length-unflag [] = refl
length-unflag (r ∷ rows) = omega (arith, length-unflag rows)

-- `d` has `n` rows that come to `total`, and its headline is what they send to others.
pub record IsAccount (d : Derived) (n : ℕ) (total : ℤ) : Type 0 where
  pub headline : d.amount ≡ sum_unflagged d.rows
  pub whole : d.sum_out ≡ sum_rows d.rows
  pub many : length d.rows ≡ n
  pub spent : d.sum_out ≡ total

pub +ℤ_zero : (a : ℤ) → a +ℤ pos 0 ≡ a
unfolding ◌+ℤ◌
+ℤ_zero a = ground arith

length-snoc :
    (rows : List TxIo) (r : TxIo) (n : ℕ) → length rows ≡ n → length (rows ++ r ∷ []) ≡ n + 1
length-snoc rows r n h = omega (arith, length-append rows (r ∷ []))

module _ {B : Type 0} ⦃e : Eq Text⦄ where
  book-IsAccount :
      (v : Vout B) (sats : ℤ) (d : Derived) (change : Bool) (n : ℕ) (total : ℤ)
      → IsAccount d n total
      → IsAccount (book v sats d change) (n + 1) (total +ℤ sats)
  unfolding book
  book-IsAccount v sats d true n total b = record {
    headline =
        b.headline ∙ sym (+ℤ_zero (sum_unflagged d.rows)) ∙ sym (sum_unflagged-snoc d.rows _);
    whole = ap (λ x. x +ℤ sats) b.whole ∙ sym (sum_rows-snoc d.rows _);
    many = length-snoc d.rows _ n b.many;
    spent = ap (λ x. x +ℤ sats) b.spent;
  }
  book-IsAccount v sats d false n total b = record {
    headline = ap (λ x. x +ℤ sats) b.headline ∙ sym (sum_unflagged-snoc d.rows _);
    whole = ap (λ x. x +ℤ sats) b.whole ∙ sym (sum_rows-snoc d.rows _);
    many = length-snoc d.rows _ n b.many;
    spent = ap (λ x. x +ℤ sats) b.spent;
  }

  count_all-IsAccount :
      (vs : List (Vout B)) (d : Derived) (n : ℕ) (total : ℤ)
      → IsAccount d n total
      → IsAccount (count_all d vs) n total
  unfolding count_all
  count_all-IsAccount [] d n total b = b
  count_all-IsAccount (v ∷ vs) d n total b =
      count_all-IsAccount vs _ n total
        (record { headline = b.headline; whole = b.whole; many = b.many; spent = b.spent })

  self_send-IsAccount :
      (vs : List (Vout B)) (d : Derived) (n : ℕ) (total : ℤ)
      → IsAccount d n total
      → IsAccount (self_send d vs) n total
  self_send-IsAccount vs d n total b = count_all-IsAccount vs _ n total (record {
    headline = b.whole ∙ sym (sum_unflagged-unflag d.rows);
    whole = b.whole ∙ sym (sum_rows-unflag d.rows);
    many = length-unflag d.rows ∙ b.many;
    spent = b.spent;
  })

module _ {B : Type 0} (new_amount : B → Option ℤ) ⦃e : Eq Text⦄ where
  derive_loop-IsAccount :
      (from : List Text) (coinbase : Bool) (vs : List (Vout B)) (d : Derived) (n : ℕ) (total : ℤ)
      → IsAccount d n total
      → IsAccount
          (derive_loop new_amount from coinbase d vs)
          (n + length vs)
          (total +ℤ sum_vouts new_amount vs)
  unfolding derive_loop derive_output
  derive_loop-IsAccount from coinbase [] d n total b = record {
    headline = b.headline;
    whole = b.whole;
    many = omega (arith, b.many);
    spent = b.spent ∙ sym (+ℤ_zero total);
  }
  derive_loop-IsAccount from coinbase (v ∷ vs) d n total b =
      let sats = sats_from_btc new_amount v.value in
      let next =
        derive_loop-IsAccount from coinbase vs _ (n + 1) (total +ℤ sats)
          (book-IsAccount v sats d (is_change from coinbase (vout_addrs v)) n total b) in
      record {
        headline = next.headline;
        whole = next.whole;
        many = omega (arith, next.many);
        spent = next.spent ∙ +ℤ_assoc total sats (sum_vouts new_amount vs);
      }

  -- The card of a transaction has one row for each of its outputs, the rows come to the sum of the
  -- amounts btcd reports, and the headline amount is the sum of the rows not flagged as change: when
  -- every output goes back to the sender, no row is flagged and the headline is the whole sum.
  pub derive_outputs-IsAccount :
      (from : List Text) (coinbase : Bool) (vs : List (Vout B))
      → IsAccount (derive_outputs new_amount from coinbase vs) (length vs) (sum_vouts new_amount vs)
  unfolding derive_outputs
  derive_outputs-IsAccount from coinbase vs =
      let d = derive_loop new_amount from coinbase no_outputs vs in
      let loop =
        derive_loop-IsAccount from coinbase vs no_outputs 0 (pos 0)
          (record { headline = refl; whole = refl; many = refl; spent = refl }) in
      let b : IsAccount d (length vs) (sum_vouts new_amount vs) = record {
        headline = loop.headline;
        whole = loop.whole;
        many = omega (arith, loop.many);
        spent = loop.spent ∙ +ℤ_comm (pos 0) _ ∙ +ℤ_zero _;
      } in
      elim (Bool-cases (is_empty d.to_addrs)) [
        | inl h ↦ rw h (self_send-IsAccount vs d (length vs) (sum_vouts new_amount vs) b)
        | inr h ↦ rw h b
      ]
