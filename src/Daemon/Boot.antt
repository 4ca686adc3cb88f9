-- ===== src/Daemon/Boot.antt =====
-- cmd/btcdwatchd/main.go: how the daemon comes up, and how it ends. `host` is what the configuration
-- is read with, `read_file` and `accepts` what the node's client is made with, `present` is whether
-- there is a file config.yaml, and `sub_ok` whether `fs.Sub` gives the folder of the binary's pages.
use mathlib.Core.Bool.{true≢false}
use btcdwatch_com.Base.{
  ℕ, ◌≡◌, ◌↔◌, refl, sym, ap, ◌∙◌, [], Option, none, some, Bool, true, false, not, ◌&&◌, ◌||◌,
  if◌then◌else◌, nat_eq,
}
use btcdwatch_com.Base.Action.{Result, ok, err, ok_inj, err≢ok}
use btcdwatch_com.Base.Float.{Float}
use btcdwatch_com.Base.Map.{is_some}
use btcdwatch_com.Base.Text.{Text, codes, text_eq, codes_eq}
use btcdwatch_com.Chain.{Network, params_for_network}
use btcdwatch_com.Config.{Config, Host, LoadError, load}
use btcdwatch_com.Daemon.{Daemon, daemon_on, new_daemon}
use btcdwatch_com.Hub.{step, done}
use btcdwatch_com.Node.{Client, start, new_client}
use btcdwatch_com.Node.Connect.{NodeConfig, ConnConfig, NewError, new_node, new_node-sealed}

pub data RunError : Type 0 where
  load_failed : LoadError → RunError
  unknown_network : RunError
  node_failed : NewError → RunError
  static_failed : RunError
  listen_failed : RunError
  shutdown_failed : RunError

-- What `run` waits for: the listener fails, or a signal comes.
pub data Wake : Type 0 where
  listener : Wake
  signal : Wake

unfoldable pub config_path : Text → Bool → Text
unfolding text_eq
config_path given present = if text_eq given [] && present then codes "config.yaml" else given

-- Whether `StaticHandler` is made, which does not depend on there being a page to serve: it fails only
-- when no directory is named and `fs.Sub` fails on the files of the binary.
unfoldable pub is_static_made : Text → Bool → Bool
unfolding text_eq
is_static_made static_dir sub_ok = not (text_eq static_dir []) || sub_ok

abbrev pub exit_of : Wake → Bool → Option RunError
exit_of listener in_time = some listen_failed
exit_of signal in_time = if in_time then none else some shutdown_failed

pub some_inj : {A : Type 0} {a b : A} → some a ≡ some b → a ≡ b
some_inj h = cc

module _ {f : Float} where
  abbrev pub node_config : Config f → NodeConfig
  node_config c = record {
    host = c.node.rpc_host;
    user = c.node.rpc_user;
    pass = c.node.rpc_pass;
    cert_path = c.node.rpc_cert;
    no_tls = c.node.rpc_no_tls;
  }

  -- The daemon over the client that was made, if the handler for the pages is made.
  abbrev pub with_static : Bool → Daemon f → Result RunError (Daemon f)
  with_static true d = ok d
  with_static false d = err static_failed

  abbrev pub with_node :
      Bool → Daemon f → Result NewError (ConnConfig × Client) → Result RunError (Daemon f)
  with_node static d (err x) = err (node_failed x)
  with_node static d (ok (conn, client)) = with_static static (record d { client = start client })

  module _ (host : Host f) (read_file : Text → Option Text) (accepts : ConnConfig → Bool) where
    abbrev pub with_network : Bool → Config f → Option (Daemon f) → Result RunError (Daemon f)
    with_network static c none = err unknown_network
    with_network static c (some d) = with_node static d (new_node read_file accepts (node_config c))

    abbrev pub with_config : Bool → ℕ → Result LoadError (Config f) → Result RunError (Daemon f)
    with_config static now (err x) = err (load_failed x)
    with_config static now (ok c) = with_network static c (new_daemon c now)

    -- `run` up to the listener, with the two flags.
    unfoldable pub boot : Text → Bool → Text → Bool → ℕ → Result RunError (Daemon f)
    unfolding load new_node new_daemon config_path is_static_made
    boot given present static_dir sub_ok now =
        with_config (is_static_made static_dir sub_ok) now (load host (config_path given present))

  -- The rest of `run`: what it waits for, whether the server shuts down in time, and `stopHub`.
  unfoldable pub finish : Wake → Bool → Daemon f → Option RunError × Daemon f
  unfolding step
  finish wake in_time d = (exit_of wake in_time, record d { hub = (step d.hub done).0 })

  module _ (host : Host f) (read_file : Text → Option Text) (accepts : ConnConfig → Bool) where
    -- What a daemon that comes up has been given.
    abbrev pub IsGiven : Text → Bool → ℕ → Daemon f → Type 0
    IsGiven path static now d =
        (c : Config f) × (conn : ConnConfig) × (load host path ≡ ok c)
        × (new_daemon c now ≡ some d)
        × (new_node read_file accepts (node_config c) ≡ ok (conn, new_client))
        × (static ≡ true)

    daemon_on-client :
        (c : Config f) (now : ℕ) (net : Option Network) (d : Daemon f)
        → daemon_on c now net ≡ some d
        → d.client ≡ start new_client
    daemon_on-client c now none d h = absurd (true≢false (sym (ap is_some h)))
    daemon_on-client c now (some net) d h = sym (ap Daemon.client (some_inj h))

    new_daemon-client :
        (c : Config f) (now : ℕ) (d : Daemon f)
        → new_daemon c now ≡ some d
        → d.client ≡ start new_client
    unfolding new_daemon
    new_daemon-client c now d h = daemon_on-client c now (params_for_network c.node.network) d h

    boot-given :
        (given : Text) (present : Bool) (static_dir : Text) (sub_ok : Bool) (now : ℕ) (d : Daemon f)
        → IsGiven (config_path given present) (is_static_made static_dir sub_ok) now d
        → boot host read_file accepts given present static_dir sub_ok now ≡ ok d
    unfolding boot
    boot-given given present static_dir sub_ok now d (c, conn, loaded, made, node, static) =
        rw (loaded, made, node, static)
          (ap (λ k. ok (record d { client = k })) (sym (new_daemon-client c now d made)))

    with_static-ok :
        (static : Bool) (d d' : Daemon f)
        → with_static static d ≡ ok d'
        → (static ≡ true) × (d ≡ d')
    with_static-ok true d d' h = (refl, ok_inj h)
    with_static-ok false d d' h = absurd (err≢ok h)

    with_node-ok :
        (static : Bool) (d d' : Daemon f) (r : Result NewError (ConnConfig × Client))
        → with_node static d r ≡ ok d'
        → ((conn : ConnConfig) × (client : Client) × (r ≡ ok (conn, client))
            × (static ≡ true)
            × (record d { client = start client } ≡ d'))
    with_node-ok static d d' (err x) h = absurd (err≢ok h)
    with_node-ok static d d' (ok (conn, client)) h =
        let (shown, same) = with_static-ok static (record d { client = start client }) d' h in
        (conn, client, refl, shown, same)

    with_network-ok :
        (static : Bool) (c : Config f) (now : ℕ) (o : Option (Daemon f)) (d' : Daemon f)
        → new_daemon c now ≡ o
        → with_network host read_file accepts static c o ≡ ok d'
        → (conn : ConnConfig) × (new_daemon c now ≡ some d')
          × (new_node read_file accepts (node_config c) ≡ ok (conn, new_client))
          × (static ≡ true)
    with_network-ok static c now none d' made h = absurd (err≢ok h)
    with_network-ok static c now (some d) d' made h =
        let (conn, client, node, shown, same) =
          with_node-ok static d d' (new_node read_file accepts (node_config c)) h in
        let (fresh, plain, trusted) =
          new_node-sealed read_file accepts (node_config c) conn client node in
        let whole : d ≡ d' =
          ap (λ k. record d { client = k }) (new_daemon-client c now d made ∙ ap start (sym fresh))
          ∙ same in
        (conn, made ∙ ap some whole, node ∙ ap (λ k. ok (conn, k)) fresh, shown)

    with_config-ok :
        (path : Text) (static : Bool) (now : ℕ) (r : Result LoadError (Config f)) (d : Daemon f)
        → load host path ≡ r
        → with_config host read_file accepts static now r ≡ ok d
        → IsGiven path static now d
    with_config-ok path static now (err x) d loaded h = absurd (err≢ok h)
    with_config-ok path static now (ok c) d loaded h =
        let (conn, made, node, shown) = with_network-ok static c now (new_daemon c now) d refl h in
        (c, conn, loaded, made, node, shown)

    -- The daemon comes up exactly when the configuration loads from the path that was named, or from
    -- config.yaml if none was and it is there, its network is known, and the node's client and the
    -- handler for the pages can be made; and it is the daemon of that configuration.
    pub boot_iff :
        (given : Text) (present : Bool) (static_dir : Text) (sub_ok : Bool) (now : ℕ) (d : Daemon f)
        → (boot host read_file accepts given present static_dir sub_ok now ≡ ok d)
          ↔ IsGiven (config_path given present) (is_static_made static_dir sub_ok) now d
    unfolding boot
    boot_iff given present static_dir sub_ok now d = (
      with_config-ok (config_path given present) (is_static_made static_dir sub_ok) now
          (load host (config_path given present)) d refl,
      boot-given given present static_dir sub_ok now d,
    )
