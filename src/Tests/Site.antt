-- ===== src/Tests/Site.antt =====
-- A node with one block, whose only transaction is its coinbase, and a server on top of it.
use btcdwatch_com.Base.{ℕ, ◌*◌, [], ◌∷◌, Option, none, some, true, false, if◌then◌else◌, ◌==◌}
use btcdwatch_com.Base.Int.{ℤ, pos, negsuc}
use btcdwatch_com.Base.Action.{Result, ok, err}
use btcdwatch_com.Base.Text.{Text, codes, text_eq}
use btcdwatch_com.Api.{Server}
use btcdwatch_com.Api.Handlers.{Net}
use btcdwatch_com.Chain.{AddressKind}
use btcdwatch_com.Live.{new_live}
use btcdwatch_com.Node.{Error, Codes, Backend}
use btcdwatch_com.Price.{new_quote}
use btcdwatch_com.Rpc.{TxRaw, Header, BlockRaw}
use btcdwatch_com.Service.{Env, new_service}
use btcdwatch_com.Tests.Doubles.{milli, insertion}

abbrev pub node_codes : Codes
node_codes = record {
  no_tx_info = negsuc 4;
  block_not_found = negsuc 4;
  out_of_range = negsuc 0;
  invalid_address_or_key = negsuc 4;
}

abbrev pub coinbase_id : Text
coinbase_id = codes "1111111111111111111111111111111111111111111111111111111111111111"

abbrev pub block_id : Text
block_id = codes "00000000aa1111111111111111111111111111111111111111111111111111ff"

abbrev pub coinbase_raw : TxRaw ℕ
coinbase_raw = record {
  txid = coinbase_id;
  confirmations = 3;
  vsize = 100;
  size = 100;
  vin = record { txid = []; vout = 0; sequence = 0; coinbase = true } ∷ [];
  vout =
      record {
        value = 50;
        addresses = [];
        address = codes "miner";
        class = codes "witness_v0_keyhash";
      }
      ∷ [];
  block_hash = block_id;
}

abbrev pub block_raw : BlockRaw
block_raw = record {
  height = 7;
  hash = block_id;
  time = 1000;
  confirmations = 3;
  txs = coinbase_id ∷ [];
  size = 300;
  weight = 1200;
  next_hash = [];
}

abbrev pub block_header : Header
block_header = record { height = 7; hash = block_id; time = 1000 }

-- The node knows nothing by any other name.
abbrev pub known : {A : Type 0} → Text → A → Text → Result Error A
known name a asked = if text_eq asked name then ok a else err (Error.rpc (negsuc 4))

abbrev pub small_node : Backend ℕ Text
small_node = record {
  raw_transaction = known coinbase_id coinbase_raw;
  block_header = known block_id block_header;
  block_hash = λ height. if height == 7 then ok block_id else err (Error.rpc (negsuc 0));
  block_count = ok 7;
  block = known block_id block_raw;
  raw_mempool = λ gen. ok [];
  search = λ addr skip count. ok [];
}

abbrev pub amount : ℕ → Option ℤ
amount n = some (pos (n * 100000000))

abbrev pub small_env : Env milli ℕ Text
small_env = record {
  backend = small_node;
  parse_hash = λ t. some t;
  show_hash = λ t. t;
  new_amount = amount;
  to_btc = milli.of_int;
  codes = node_codes;
  sorter = insertion;
  params = record {
    name = codes "regtest";
    subsidy_reduction_interval = 150;
    target_time_per_block = 600000000000;
    tip_age_gated = false;
  };
  floors = record { floor_slow = 1000; floor_standard = 2000; floor_urgent = 5000 };
  max_scan = 2000;
  quote = new_quote milli 98000000 0;
  now = 1000000000000;
}

abbrev pub small_net : Net Text
small_net = record {
  decode = λ t. some t;
  is_for_net = λ t. true;
  encode = λ t. t;
  kind_of = λ t. AddressKind.other;
  atoi = λ t. none;
  max_scans = 2;
}

abbrev pub small_server : Server milli
small_server = record {
  service = new_service milli false;
  live = new_live;
  scans = 0;
  network = codes "regtest";
  started = 0;
}
