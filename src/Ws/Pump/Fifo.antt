-- ===== src/Ws/Pump/Fifo.antt =====
-- internal/api/ws.go: what the write pump does with the messages of its channel.
use mathlib.Core.Bool.{true≢false}
use btcdwatch_com.Base.{
  ◌≤◌, ◌≡◌, refl, sym, ap, subst, ◌∙◌, List, [], ◌∷◌, ◌++◌, Bool, true, false, not, ◌&&◌, ◌||◌,
  if◌then◌else◌, ltb, length, arith, append_nil, append_assoc, inl, inr, Bool-cases,
}
use btcdwatch_com.Ws.Pump.{
  text, ping, close, Attempt, PumpTurn, offered, dropped, conn_closed, takes_done, takes_send,
  takes_tick, Pump, new_pump, go_on, drain, say_goodbye, unless_over, pump_step, pump, delivered,
  lost, taken_in, all_taken_in, goes_on, ends_last,
}
use btcdwatch_com.Ws.{try_send, shutdown, send_buffer_size}

if_cases : {A : Type 0} (Q : A → Type 0) (b : Bool) (x y : A) → Q x → Q y → Q (if b then x else y)
if_cases Q true x y qx qy = qx
if_cases Q false x y qx qy = qy

module _ {M : Type 0} where
  -- The messages of all writes that were tried.
  abbrev texts : List (Attempt M) → List M
  texts [] = []
  texts ((text m, written) ∷ tried) = m ∷ texts tried
  texts ((f, written) ∷ tried) = texts tried

  texts-++ : (xs ys : List (Attempt M)) → texts (xs ++ ys) ≡ texts xs ++ texts ys
  texts-++ [] ys = refl
  texts-++ ((text m, written) ∷ xs) ys = ap (λ ms. m ∷ ms) (texts-++ xs ys)
  texts-++ ((ping, written) ∷ xs) ys = texts-++ xs ys
  texts-++ ((close, written) ∷ xs) ys = texts-++ xs ys

  lost-++ : (xs ys : List (Attempt M)) → lost (xs ++ ys) ≡ lost xs ++ lost ys
  lost-++ [] ys = refl
  lost-++ ((text m, true) ∷ xs) ys = lost-++ xs ys
  lost-++ ((text m, false) ∷ xs) ys = ap (λ ms. m ∷ ms) (lost-++ xs ys)
  lost-++ ((ping, written) ∷ xs) ys = lost-++ xs ys
  lost-++ ((close, written) ∷ xs) ys = lost-++ xs ys

  drain-fifo :
      (takes : Bool) (p : Pump M) (ms : List M)
      → p.client.send ≡ ms
      → texts (drain takes p ms).0 ++ (drain takes p ms).1.client.send ≡ ms
  drain-fifo takes p [] e = e
  drain-fifo takes p (m ∷ ms) e = refl

  abbrev IsKept : Pump M → List (Attempt M) × Pump M → Type 0
  IsKept p next = texts next.0 ++ next.1.client.send ≡ p.client.send

  unless_over-fifo :
      (p : Pump M) (next : List (Attempt M) × Pump M)
      → IsKept p next
      → texts (unless_over p next).0 ++ (unless_over p next).1.client.send ≡ p.client.send ++ []
  unless_over-fifo p next k =
      if_cases (IsKept p) p.over ([], p) next refl k ∙ sym (append_nil p.client.send)

  pump_step-fifo :
      (p : Pump M) (t : PumpTurn M)
      → texts (pump_step p t).0 ++ (pump_step p t).1.client.send ≡ p.client.send ++ taken_in p t
  unfolding pump_step try_send shutdown
  pump_step-fifo p (offered picks m) =
      elim (Bool-cases
        (ltb (length p.client.send) send_buffer_size && (not p.client.done || picks))) [
          | inl room ↦ rw room refl
          | inr none_left ↦ rw none_left (sym (append_nil p.client.send))
        ]
  pump_step-fifo p dropped = sym (append_nil p.client.send)
  pump_step-fifo p conn_closed = sym (append_nil p.client.send)
  pump_step-fifo p (takes_done takes) = unless_over-fifo p (say_goodbye takes p) (
      if_cases (IsKept p) p.client.done
        ((close, takes && p.conn_open) ∷ [], record p { conn_open = false; over = true }) ([], p)
        refl refl)
  pump_step-fifo p (takes_send takes) =
      unless_over-fifo p (drain takes p p.client.send) (drain-fifo takes p p.client.send refl)
  pump_step-fifo p (takes_tick takes) =
      unless_over-fifo p (go_on ping (takes && p.conn_open) p) refl

  -- What was tried is, with what is held, what was put in.
  pump_fifo_from :
      (p : Pump M) (ts : List (PumpTurn M))
      → texts (pump p ts).0 ++ (pump p ts).1.client.send ≡ p.client.send ++ all_taken_in p ts
  unfolding pump all_taken_in
  pump_fifo_from p [] = sym (append_nil p.client.send)
  pump_fifo_from p (t ∷ ts) =
      let (tried, p') = pump_step p t in
      let (rest, p'') = pump p' ts in
      ap (λ ms. ms ++ p''.client.send) (texts-++ tried rest)
      ∙ append_assoc (texts tried) (texts rest) p''.client.send
      ∙ ap (λ ms. texts tried ++ ms) (pump_fifo_from p' ts)
      ∙ sym (append_assoc (texts tried) p'.client.send (all_taken_in p' ts))
      ∙ ap (λ ms. ms ++ all_taken_in p' ts) (pump_step-fifo p t)
      ∙ append_assoc p.client.send (taken_in p t) (all_taken_in p' ts)

  unless_over-quiet :
      (p : Pump M) (next : List (Attempt M) × Pump M)
      → p.over ≡ true
      → ((unless_over p next).0 ≡ []) × ((unless_over p next).1.over ≡ true)
  unless_over-quiet p next over =
      subst (λ b. let x = if b then ([], p) else next in (x.0 ≡ []) × (x.1.over ≡ true)) (sym over)
        (refl, over)

  pump_step-over :
      (p : Pump M) (t : PumpTurn M)
      → p.over ≡ true
      → ((pump_step p t).0 ≡ []) × ((pump_step p t).1.over ≡ true)
  unfolding pump_step
  pump_step-over p (offered picks m) over = (refl, over)
  pump_step-over p dropped over = (refl, over)
  pump_step-over p conn_closed over = (refl, over)
  pump_step-over p (takes_done takes) over = unless_over-quiet p _ over
  pump_step-over p (takes_send takes) over = unless_over-quiet p _ over
  pump_step-over p (takes_tick takes) over = unless_over-quiet p _ over

  pump-over :
      (p : Pump M) (ts : List (PumpTurn M))
      → p.over ≡ true
      → ((pump p ts).0 ≡ []) × ((pump p ts).1.over ≡ true)
  unfolding pump
  pump-over p [] over = (refl, over)
  pump-over p (t ∷ ts) over =
      let (none, still) = pump_step-over p t over in
      let (no_more, at_end) = pump-over (pump_step p t).1 ts still in
      (ap (λ xs. xs ++ (pump (pump_step p t).1 ts).0) none ∙ no_more, at_end)

  -- A turn tries one write at most, and the pump returns unless it goes on.
  abbrev IsTurn : List (Attempt M) → Bool → Type 0
  IsTurn [] over = Unit
  IsTurn (a ∷ []) over = over ≡ not (goes_on a)
  IsTurn (a ∷ b ∷ tried) over = ⊥

  drain-IsTurn :
      (takes : Bool) (p : Pump M) (ms : List M)
      → IsTurn (drain takes p ms).0 (drain takes p ms).1.over
  drain-IsTurn takes p [] = tt
  drain-IsTurn takes p (m ∷ ms) = refl

  abbrev IsNext : List (Attempt M) × Pump M → Type 0
  IsNext next = IsTurn next.0 next.1.over

  unless_over-IsTurn :
      (p : Pump M) (next : List (Attempt M) × Pump M) → IsNext next → IsNext (unless_over p next)
  unless_over-IsTurn p next i = if_cases IsNext p.over ([], p) next tt i

  pump_step-IsTurn : (p : Pump M) (t : PumpTurn M) → IsNext (pump_step p t)
  unfolding pump_step
  pump_step-IsTurn p (offered picks m) = tt
  pump_step-IsTurn p dropped = tt
  pump_step-IsTurn p conn_closed = tt
  pump_step-IsTurn p (takes_done takes) = unless_over-IsTurn p (say_goodbye takes p) (
      if_cases IsNext p.client.done
        ((close, takes && p.conn_open) ∷ [], record p { conn_open = false; over = true }) ([], p)
        refl tt)
  pump_step-IsTurn p (takes_send takes) =
      unless_over-IsTurn p (drain takes p p.client.send) (drain-IsTurn takes p p.client.send)
  pump_step-IsTurn p (takes_tick takes) =
      unless_over-IsTurn p (go_on ping (takes && p.conn_open) p) refl

  ends_last-∷ :
      (a : Attempt M) (ys : List (Attempt M)) (over : Bool)
      → over ≡ not (goes_on a)
      → (over ≡ true → ys ≡ [])
      → ends_last ys ≡ true
      → ends_last (a ∷ ys) ≡ true
  ends_last-∷ a [] over i quiet h = refl
  ends_last-∷ a (b ∷ ys) over i quiet h = elim (Bool-cases (goes_on a)) [
    | inl on ↦ rw on h
    | inr off ↦ absurd (true≢false (ap is_cons (quiet (i ∙ ap not off))))
  ]
    where
      is_cons : List (Attempt M) → Bool
      is_cons [] = false
      is_cons (x ∷ xs) = true

  ends_last-++ :
      (xs ys : List (Attempt M)) (over : Bool)
      → IsTurn xs over
      → (over ≡ true → ys ≡ [])
      → ends_last ys ≡ true
      → ends_last (xs ++ ys) ≡ true
  ends_last-++ [] ys over i quiet h = h
  ends_last-++ (a ∷ []) ys over i quiet h = ends_last-∷ a ys over i quiet h
  ends_last-++ (a ∷ b ∷ xs) ys over i quiet h = absurd i

  pump-ends_last : (p : Pump M) (ts : List (PumpTurn M)) → ends_last (pump p ts).0 ≡ true
  unfolding pump
  pump-ends_last p [] = refl
  pump-ends_last p (t ∷ ts) =
      let p' = (pump_step p t).1 in
      ends_last-++ (pump_step p t).0 (pump p' ts).0 p'.over (pump_step-IsTurn p t)
        (λ over. (pump-over p' ts over).0) (pump-ends_last p' ts)

  lost-IsTurn : (xs : List (Attempt M)) → IsTurn xs false → lost xs ≡ []
  lost-IsTurn [] i = refl
  lost-IsTurn ((text m, true) ∷ []) i = refl
  lost-IsTurn ((text m, false) ∷ []) i = absurd (true≢false (sym i))
  lost-IsTurn ((ping, written) ∷ []) i = refl
  lost-IsTurn ((close, written) ∷ []) i = refl
  lost-IsTurn (a ∷ b ∷ xs) i = absurd i

  -- As long as the pump has not returned, no message is lost.
  pump-lost :
      (p : Pump M) (ts : List (PumpTurn M)) → (pump p ts).1.over ≡ false → lost (pump p ts).0 ≡ []
  unfolding pump
  pump-lost p [] on = refl
  pump-lost p (t ∷ ts) on = elim (Bool-cases (pump_step p t).1.over) [
    | inl over ↦ absurd (true≢false (sym (pump-over (pump_step p t).1 ts over).1 ∙ on))
    | inr still ↦
        lost-++ (pump_step p t).0 (pump (pump_step p t).1 ts).0
        ∙ ap (λ ms. ms ++ lost (pump (pump_step p t).1 ts).0)
            (lost-IsTurn (pump_step p t).0
              (subst (IsTurn (pump_step p t).0) still (pump_step-IsTurn p t)))
        ∙ pump-lost (pump_step p t).1 ts on
  ]

  -- If only the last write may fail, what is lost comes after what is delivered, and is one at most.
  lost_last :
      (xs : List (Attempt M))
      → ends_last xs ≡ true
      → (delivered xs ++ lost xs ≡ texts xs) × (length (lost xs) ≤ 1)
  lost_last [] h = (refl, omega arith)
  lost_last ((text m, true) ∷ []) h = (refl, omega arith)
  lost_last ((text m, false) ∷ []) h = (refl, omega arith)
  lost_last ((ping, written) ∷ []) h = (refl, omega arith)
  lost_last ((close, written) ∷ []) h = (refl, omega arith)
  lost_last ((text m, true) ∷ b ∷ xs) h =
      let (same, few) = lost_last (b ∷ xs) h in (ap (λ ms. m ∷ ms) same, few)
  lost_last ((text m, false) ∷ b ∷ xs) h = absurd (true≢false (sym h))
  lost_last ((ping, true) ∷ b ∷ xs) h = lost_last (b ∷ xs) h
  lost_last ((ping, false) ∷ b ∷ xs) h = absurd (true≢false (sym h))
  lost_last ((close, written) ∷ b ∷ xs) h = absurd (true≢false (sym h))

  -- However the senders, the read pump and the write pump of a connection take turns, and whichever
  -- writes the connection takes: the messages that were written, then the one that a failed write has
  -- lost, if any, then those that the channel still holds are exactly the messages that were put into
  -- the channel, in their order. A message is lost only when the pump has returned, and after a failed
  -- write or a close frame nothing more is written.
  pub pump-fifo :
      (ts : List (PumpTurn M))
      → let (tried, p) = pump new_pump ts in
        (delivered tried ++ lost tried ++ p.client.send ≡ all_taken_in new_pump ts)
        × (length (lost tried) ≤ (if p.over then 1 else 0))
        × (ends_last tried ≡ true)
  pump-fifo ts =
      let (tried, p) = pump new_pump ts in
      let (same, few) = lost_last tried (pump-ends_last new_pump ts) in
      (
        ap (λ ms. ms ++ p.client.send) same ∙ pump_fifo_from new_pump ts,
        elim (Bool-cases p.over) [
          | inl over ↦ rw over few
          | inr on ↦ rw on (omega (arith, ap length (pump-lost new_pump ts on)))
        ],
        pump-ends_last new_pump ts,
      )
