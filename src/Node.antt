-- ===== src/Node.antt =====
-- internal/node/client.go: the client of btcd and what the rest of the program asks of it. `Backend`
-- is the interface of that name, as the answers of the node while one request is served: a hash is
-- an `H`, an amount in BTC a `B`, and the answer for the mempool is given by the generation at
-- which the fetch starts. The connection itself is rpcclient's: whether it is down is an argument.
pub mod Blocks
pub mod Connect
pub mod Link
use btcdwatch_com.Base.{
  ℕ, List, [], ◌∷◌, Option, Bool, true, false, not, ◌&&◌, ◌||◌, if◌then◌else◌, ◌==◌,
}
use btcdwatch_com.Base.Text.{Text, text_eq}
use btcdwatch_com.Base.Action.{Result, ok, err}
use btcdwatch_com.Base.Int.{ℤ, pos, negsuc}
use btcdwatch_com.Rpc.{TxRaw, Header, BlockRaw, RawEntry, SearchResult}

-- The errors that the program tells apart. `rpc` is btcjson's error with its code.
pub data Error : Type 0 where
  unavailable tx_not_found block_not_found other : Error
  rpc : ℤ → Error

abbrev pub beq_ℤ : ℤ → ℤ → Bool
beq_ℤ (pos a) (pos b) = a == b
beq_ℤ (negsuc a) (negsuc b) = a == b
beq_ℤ _ _ = false

-- The codes of btcjson that the program names.
pub record Codes : Type 0 where
  pub no_tx_info : ℤ
  pub block_not_found : ℤ
  pub out_of_range : ℤ
  pub invalid_address_or_key : ℤ

-- `isNoTxInfo` and `isBlockMissing`.
unfoldable pub is_no_tx_info : Codes → Error → Bool
is_no_tx_info codes (rpc code) = beq_ℤ code codes.no_tx_info
is_no_tx_info codes _ = false

unfoldable pub is_block_missing : Codes → Error → Bool
is_block_missing codes (rpc code) =
    beq_ℤ code codes.block_not_found
    || beq_ℤ code codes.out_of_range
    || beq_ℤ code codes.invalid_address_or_key
is_block_missing codes _ = false

pub record Backend (B H : Type 0) : Type 0 where
  pub raw_transaction : H → Result Error (TxRaw B)
  pub block_header : H → Result Error Header
  pub block_hash : ℕ → Result Error H
  pub block_count : Result Error ℕ
  pub block : H → Result Error BlockRaw
  pub raw_mempool : ℕ → Result Error (List (Text × RawEntry B))
  pub search : Text → ℕ → ℕ → Result Error (List (SearchResult B))

pub record Client : Type 0 where
  pub ready : Bool
  pub has_handlers : Bool
  pub last_block_hash : Text

abbrev pub new_client : Client
new_client = record { ready = false; has_handlers = false; last_block_hash = [] }

-- `Start`, less the connection.
abbrev pub start : Client → Client
start c = record c { has_handlers = true }

-- The end of what `onClientConnected` starts: whether `OnConnect` is called.
unfoldable pub on_client_connected : Client → Client × Bool
on_client_connected c = (record c { ready = true }, c.has_handlers)

-- Whether the handler is called with the block.
unfoldable pub on_block : Client → Text → Client × Bool
on_block c hash =
    if text_eq hash c.last_block_hash
    then (c, false)
    else (record c { last_block_hash = hash }, c.has_handlers)

unfoldable pub is_available : Client → Bool → Bool
is_available c disconnected = not (not c.ready || disconnected)

-- Each method of the client: it fails fast while the connection is not there.
unfoldable pub call : {A : Type 0} → Client → Bool → Result Error A → Result Error A
unfolding is_available
call c disconnected answer = if is_available c disconnected then answer else err unavailable

unfoldable pub backend_of : {B H : Type 0} → Client → Bool → Backend B H → Backend B H
unfolding call
backend_of c disconnected b = record {
  raw_transaction = λ hash. call c disconnected (b.raw_transaction hash);
  block_header = λ hash. call c disconnected (b.block_header hash);
  block_hash = λ height. call c disconnected (b.block_hash height);
  block_count = call c disconnected b.block_count;
  block = λ hash. call c disconnected (b.block hash);
  raw_mempool = λ gen. call c disconnected (b.raw_mempool gen);
  search = λ addr skip count. call c disconnected (b.search addr skip count);
}
