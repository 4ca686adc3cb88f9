-- ===== src/Ws/Commands.antt =====
-- internal/api/ws.go: what the frames of a connection come to at the hub.
use btcdwatch_com.Base.{
  ℕ, ◌≡◌, refl, List, [], ◌∷◌, length, Option, Bool, not, ◌&&◌, inl, inr, Bool-cases,
}
use btcdwatch_com.Base.Text.{Text, codes, text_eq}
use btcdwatch_com.Chain.{Query, classify_query}
use btcdwatch_com.Chain.Classify.{AllLowerHex, hex-IsNormal}
use btcdwatch_com.Hub.{Event}
use btcdwatch_com.Ws.{Inbound, command_of, read_pump}

-- A run of events that connection `c` may cause: commands for ids in their normal form, and nothing
-- behind the end of the connection.
pub data IsPump (c : ℕ) : List (Event Text) → Type 0 where
  gone : IsPump c (Event.unregister c ∷ [])
  commanded :
      (watch : Bool) (txid : Text) (es : List (Event Text))
      → length txid ≡ 64
      → AllLowerHex txid
      → IsPump c es
      → IsPump c (Event.command c watch txid ∷ es)

module _ {Addr : Type 0} (decode : Text → Option Addr) (is_for_net : Addr → Bool) where
  command_of-IsPump :
      (c : ℕ) (watch : Bool) (raw : Text) (q : Query Addr) (rest : List (Event Text))
      → classify_query decode is_for_net raw ≡ q
      → IsPump c rest
      → IsPump c (command_of decode is_for_net c watch q rest)
  command_of-IsPump c watch raw (Query.hex txid) rest e p =
      let (wide, digits, _) = hex-IsNormal decode is_for_net raw txid e in
      commanded watch txid rest wide digits p
  command_of-IsPump c watch raw (Query.block_height height) rest e p = p
  command_of-IsPump c watch raw (Query.address a) rest e p = p
  command_of-IsPump c watch raw Query.invalid rest e p = p

  -- Whatever frames a client sends, what reaches the hub are commands of that client for ids of 64
  -- hexadecimal digits in lower case, which is the form in which the node names a transaction, and at
  -- the end, once and in any case, that the client is gone.
  pub read_pump-IsPump :
      (c : ℕ) (frames : List Inbound) → IsPump c (read_pump decode is_for_net c frames)
  unfolding read_pump
  read_pump-IsPump c [] = gone
  read_pump-IsPump c (msg ∷ frames) =
      let p = read_pump-IsPump c frames in
      let watch = text_eq msg.kind (codes "watch") in
      let kinds = not watch && not (text_eq msg.kind (codes "unwatch")) in
      elim (Bool-cases kinds) [
        | inl other ↦ rw other p
        | inr known ↦ rw known (
            command_of-IsPump c watch msg.txid (classify_query decode is_for_net msg.txid) _ refl p)
      ]
