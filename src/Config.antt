-- ===== src/Config.antt =====
-- internal/config/config.go: the configuration, from its defaults, a YAML file and the environment.
-- The parsers of strconv are parameters that give the value they return beside their error, as
-- whether there was none; `truncate` is the conversion of a double to an `int`.
pub mod Load
use btcdwatch_com.Base.{
  ℕ, List, [], ◌∷◌, Option, none, some, Bool, true, false, ◌||◌, if◌then◌else◌, Eq,
}
use btcdwatch_com.Base.Action.{Result, ok, err}
use btcdwatch_com.Base.Int.{ℤ, pos}
use btcdwatch_com.Base.Float.{Float}
use btcdwatch_com.Base.Text.{Text, codes, text_eq}

pub record Server : Type 0 where
  pub listen : Text
  pub rate_limit_per_min : ℤ
  pub rate_limit_burst : ℤ
  pub trusted_proxy_header : Text
  pub max_ws_clients : ℤ

pub record Node : Type 0 where
  pub network : Text
  pub rpc_host : Text
  pub rpc_user : Text
  pub rpc_pass : Text
  pub rpc_cert : Text
  pub rpc_no_tls : Bool

pub record Price (f : Float) : Type 0 where
  pub source : Text
  pub static_usd : f.F
  pub refresh_seconds : ℤ

pub record Fees (f : Float) : Type 0 where
  pub floor_slow : f.F
  pub floor_standard : f.F
  pub floor_urgent : f.F

pub record Address : Type 0 where
  pub max_scan_txs : ℤ
  pub max_concurrent_scans : ℤ

pub record Config (f : Float) : Type 0 where
  pub server : Server
  pub node : Node
  pub price : Price f
  pub fees : Fees f
  pub address : Address

pub data LoadError : Type 0 where
  read_config parse_config no_credentials : LoadError
  invalid_boolean invalid_number : Text → Text → LoadError

-- A variable of the environment, with the field that it sets.
pub data Var (f : Float) : Type 0 where
  text_var : Text → (Text → Config f → Config f) → Var f
  bool_var : Text → (Bool → Config f → Config f) → Var f
  number_var : Text → (f.F → Config f → Config f) → Var f

-- The state of `applyEnv`: the configuration, and the first error.
pub record Loading (f : Float) : Type 0 where
  pub config : Config f
  pub failed : Option LoadError

-- The process's environment and the libraries.
pub record Host (f : Float) : Type 0 where
  pub lookup_env : Text → Option Text
  pub parse_bool : Text → Bool × Bool
  pub parse_float : Text → f.F × Bool
  pub truncate : f.F → ℤ
  pub read_file : Text → Option Text
  pub unmarshal : Text → Config f → Option (Config f)

module _ {f : Float} where
  unfoldable pub defaults : Config f
  defaults = record {
    server = record {
      listen = codes "127.0.0.1:8480";
      rate_limit_per_min = pos 0;
      rate_limit_burst = pos 0;
      trusted_proxy_header = [];
      max_ws_clients = pos 0;
    };
    node = record {
      network = codes "regtest";
      rpc_host = codes "127.0.0.1:18334";
      rpc_user = [];
      rpc_pass = [];
      rpc_cert = [];
      rpc_no_tls = false;
    };
    price = record {
      source = codes "coingecko";
      static_usd = f.of_int (pos 98000);
      refresh_seconds = pos 60;
    };
    fees = record {
      floor_slow = f.of_int (pos 1);
      floor_standard = f.of_int (pos 2);
      floor_urgent = f.of_int (pos 5);
    };
    address = record { max_scan_txs = pos 2000; max_concurrent_scans = pos 0 };
  }

  abbrev pub on_server : (Server → Server) → Config f → Config f
  on_server g c = record c { server = g c.server }

  abbrev pub on_node : (Node → Node) → Config f → Config f
  on_node g c = record c { node = g c.node }

  abbrev pub on_price : (Price f → Price f) → Config f → Config f
  on_price g c = record c { price = g c.price }

  abbrev pub on_fees : (Fees f → Fees f) → Config f → Config f
  on_fees g c = record c { fees = g c.fees }

  abbrev pub on_address : (Address → Address) → Config f → Config f
  on_address g c = record c { address = g c.address }

  -- A value that does not parse is the error, if it is the first; behind an error it is stored.
  abbrev pub or_first :
      {A : Type 0}
      → LoadError
      → (A → Config f → Config f)
      → A
      → Option LoadError
      → Loading f
      → Loading f
  or_first bad set a none l = record l { failed = some bad }
  or_first bad set a (some x) l = record l { config = set a l.config }

  abbrev pub set_parsed :
      {A : Type 0} → LoadError → (A → Config f → Config f) → A × Bool → Loading f → Loading f
  set_parsed bad set (a, true) l = record l { config = set a l.config }
  set_parsed bad set (a, false) l = or_first bad set a l.failed l

  module _ (host : Host f) where
    -- `str`, `boolean` and `num`, by what the environment has.
    abbrev pub set_var : Var f → Option Text → Loading f → Loading f
    set_var v none l = l
    set_var (text_var key set) (some v) l = record l { config = set v l.config }
    set_var (bool_var key set) (some v) l =
        set_parsed (invalid_boolean key v) set (host.parse_bool v) l
    set_var (number_var key set) (some v) l =
        set_parsed (invalid_number key v) set (host.parse_float v) l

    abbrev pub key_of : Var f → Text
    key_of (text_var key set) = key
    key_of (bool_var key set) = key
    key_of (number_var key set) = key

    unfoldable pub apply_vars : List (Var f) → Loading f → Loading f
    apply_vars [] l = l
    apply_vars (v ∷ vs) l = apply_vars vs (set_var v (host.lookup_env (key_of v)) l)

    abbrev pub int_var : Text → (ℤ → Config f → Config f) → Var f
    int_var key set = number_var key (λ x. set (host.truncate x))

    unfoldable pub env_vars : List (Var f)
    env_vars =
        text_var (codes "BTCDWATCH_LISTEN") (λ v. on_server (λ s. record s { listen = v }))
        ∷ text_var (codes "BTCDWATCH_TRUSTED_PROXY_HEADER")
            (λ v. on_server (λ s. record s { trusted_proxy_header = v }))
        ∷ text_var (codes "BTCDWATCH_NETWORK") (λ v. on_node (λ n. record n { network = v }))
        ∷ text_var (codes "BTCDWATCH_RPC_HOST") (λ v. on_node (λ n. record n { rpc_host = v }))
        ∷ text_var (codes "BTCDWATCH_RPC_USER") (λ v. on_node (λ n. record n { rpc_user = v }))
        ∷ text_var (codes "BTCDWATCH_RPC_PASS") (λ v. on_node (λ n. record n { rpc_pass = v }))
        ∷ text_var (codes "BTCDWATCH_RPC_CERT") (λ v. on_node (λ n. record n { rpc_cert = v }))
        ∷ bool_var (codes "BTCDWATCH_RPC_NOTLS") (λ b. on_node (λ n. record n { rpc_no_tls = b }))
        ∷ text_var (codes "BTCDWATCH_PRICE_SOURCE") (λ v. on_price (λ p. record p { source = v }))
        ∷ number_var (codes "BTCDWATCH_PRICE_STATIC_USD")
            (λ x. on_price (λ p. record p { static_usd = x }))
        ∷ int_var (codes "BTCDWATCH_PRICE_REFRESH_SECONDS")
            (λ n. on_price (λ p. record p { refresh_seconds = n }))
        ∷ number_var (codes "BTCDWATCH_FEES_FLOOR_SLOW")
            (λ x. on_fees (λ p. record p { floor_slow = x }))
        ∷ number_var (codes "BTCDWATCH_FEES_FLOOR_STANDARD")
            (λ x. on_fees (λ p. record p { floor_standard = x }))
        ∷ number_var (codes "BTCDWATCH_FEES_FLOOR_URGENT")
            (λ x. on_fees (λ p. record p { floor_urgent = x }))
        ∷ int_var (codes "BTCDWATCH_ADDRESS_MAX_SCAN_TXS")
            (λ n. on_address (λ a. record a { max_scan_txs = n }))
        ∷ int_var (codes "BTCDWATCH_RATE_LIMIT_PER_MIN")
            (λ n. on_server (λ s. record s { rate_limit_per_min = n }))
        ∷ int_var (codes "BTCDWATCH_RATE_LIMIT_BURST")
            (λ n. on_server (λ s. record s { rate_limit_burst = n }))
        ∷ int_var (codes "BTCDWATCH_MAX_WS_CLIENTS")
            (λ n. on_server (λ s. record s { max_ws_clients = n }))
        ∷ int_var (codes "BTCDWATCH_ADDRESS_MAX_CONCURRENT_SCANS")
            (λ n. on_address (λ a. record a { max_concurrent_scans = n }))
        ∷ []

    abbrev pub end_vars : Loading f → Result LoadError (Config f)
    end_vars l = elim l.failed [ none ↦ ok l.config | some x ↦ err x ]

    unfoldable pub apply_env : Config f → Result LoadError (Config f)
    unfolding apply_vars env_vars
    apply_env c = end_vars (apply_vars env_vars (record { config = c; failed = none }))

    abbrev pub or_parse : Option (Config f) → Result LoadError (Config f)
    or_parse none = err parse_config
    or_parse (some c) = ok c

    abbrev pub or_read : Option Text → Result LoadError (Config f)
    or_read none = err read_config
    or_read (some text) = or_parse (host.unmarshal text defaults)

    -- The configuration before the environment.
    abbrev pub from_file : Text → Result LoadError (Config f)
    from_file [] = ok defaults
    from_file (c ∷ path) = or_read (host.read_file (c ∷ path))

    abbrev pub with_credentials : Result LoadError (Config f) → Result LoadError (Config f)
    with_credentials (err x) = err x
    with_credentials (ok c) =
        if text_eq c.node.rpc_user [] || text_eq c.node.rpc_pass []
        then err no_credentials
        else ok c

    abbrev pub with_env : Result LoadError (Config f) → Result LoadError (Config f)
    with_env (err x) = err x
    with_env (ok c) = apply_env c

    unfoldable pub load : Text → Result LoadError (Config f)
    unfolding defaults apply_env text_eq
    load path = with_credentials (with_env (from_file path))
