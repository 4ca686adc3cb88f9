-- ===== src/Node/Blocks.antt =====
-- internal/node/client.go: a block that is notified twice in a row counts once.
use btcdwatch_com.Base.{
  ◌≡◌, refl, sym, List, [], ◌∷◌, true, if◌then◌else◌, inl, inr, Bool-cases, ap, subst,
}
use btcdwatch_com.Base.Text.{Text, text_eq, text_eq_iff}
use btcdwatch_com.Node.{Client, on_block, new_client, start}

-- The blocks that the handler is called with, for a run of notifications.
unfoldable pub fired : Client → List Text → List Text
fired c [] = []
fired c (hash ∷ hs) =
    let rest = fired (on_block c hash).0 hs in if (on_block c hash).1 then hash ∷ rest else rest

-- A list of notifications without those that repeat the one before, which at first is `last`.
abbrev pub runs : Text → List Text → List Text
runs last [] = []
runs last (hash ∷ hs) = let rest = runs hash hs in if text_eq hash last then rest else hash ∷ rest

fired-runs :
    (c : Client) (hs : List Text) → c.has_handlers ≡ true → fired c hs ≡ runs c.last_block_hash hs
unfolding fired on_block
fired-runs c [] h = refl
fired-runs c (hash ∷ hs) h = elim (Bool-cases (text_eq hash c.last_block_hash)) [
  | inl same ↦
      let e : hash ≡ c.last_block_hash = (text_eq_iff hash c.last_block_hash).0 same in
      rw same (rw e (fired-runs c hs h))
  | inr new ↦
      let rest = fired (record c { last_block_hash = hash }) hs in
      rw new (
        subst (λ b. (if b then hash ∷ rest else rest) ≡ hash ∷ runs hash hs) (sym h)
          (ap (λ bs. hash ∷ bs) (fired-runs (record c { last_block_hash = hash }) hs h)))
]

-- However the two notifications of the node's blocks come in, once the handlers are set the block
-- handler is called with each of them that is not the one before again, in their order.
pub fired-new_client : (hs : List Text) → fired (start new_client) hs ≡ runs [] hs
fired-new_client hs = fired-runs (start new_client) hs refl
