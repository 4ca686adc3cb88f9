-- ===== src/Daemon/Guard.antt =====
-- cmd/btcdwatchd/main.go, with internal/config/config.go and internal/node/client.go: what a daemon
-- that comes up is sure to have.
use btcdwatch_com.Base.{
  ℕ, ◌≡◌, refl, sym, ap, subst, ◌∙◌, [], Option, none, some, Bool, true, false, not, ◌&&◌, ◌||◌,
  inl, inr, Bool-cases,
}
use btcdwatch_com.Base.Action.{ok, ok_inj, err≢ok}
use btcdwatch_com.Base.Float.{Float}
use btcdwatch_com.Base.Map.{is_some}
use btcdwatch_com.Base.Text.{Text, text_eq}
use btcdwatch_com.Chain.{Network, params_for_network}
use btcdwatch_com.Config.{Config, Host, load, env_vars}
use btcdwatch_com.Config.Load.{first_bad, load-given}
use btcdwatch_com.Daemon.{Daemon, daemon_on, new_daemon, limit_of}
use btcdwatch_com.Daemon.Boot.{boot, config_path, boot_iff, node_config, some_inj}
use btcdwatch_com.Hub.{new_hub}
use btcdwatch_com.Node.{new_client, is_available}
use btcdwatch_com.Node.Connect.{
  NodeConfig, ConnConfig, certs_of, or_unreadable, new_node, create_with-ok,
}

-- Whether a certificate is to be trusted, and which: if TLS is on and a file is named it is that file's
-- content, which could be read.
abbrev pub IsTrusted : Bool → Option Text → Option Text → Type 0
IsTrusted true content certs = (is_some content ≡ true) × (certs ≡ content)
IsTrusted false content certs = certs ≡ none

or_unreadable-IsTrusted :
    (read_file : Text → Option Text) (accepts : ConnConfig → Bool) (content certs : Option Text)
    → or_unreadable read_file accepts content ≡ ok certs
    → IsTrusted true content certs
or_unreadable-IsTrusted read_file accepts none certs h = absurd (err≢ok h)
or_unreadable-IsTrusted read_file accepts (some pem) certs h = (refl, sym (ok_inj h))

abbrev pub is_cert_named : NodeConfig → Bool
is_cert_named cfg = not cfg.no_tls && not (text_eq cfg.cert_path [])

module _ {f : Float} (host : Host f) (read_file : Text → Option Text)
    (accepts : ConnConfig → Bool) where
  certs_of-IsTrusted :
      (cfg : NodeConfig) (certs : Option Text)
      → certs_of read_file accepts cfg ≡ ok certs
      → IsTrusted (is_cert_named cfg) (read_file cfg.cert_path) certs
  unfolding certs_of
  certs_of-IsTrusted cfg certs h = elim (Bool-cases (is_cert_named cfg)) [
    | inl named ↦
        rw named (
          or_unreadable-IsTrusted read_file accepts (read_file cfg.cert_path) certs (rw named at h))
    | inr plain ↦ rw plain (sym (ok_inj (rw plain at h)))
  ]

  -- The daemon `d` of the configuration `c` at that path, with the connection of its client, which may
  -- be down.
  pub record IsGuarded (path : Text) (disconnected : Bool) (c : Config f) (conn : ConnConfig)
      (d : Daemon f) : Type 0 where
    pub loaded : load host path ≡ ok c
    pub user : (conn.user ≡ c.node.rpc_user) × (text_eq c.node.rpc_user [] ≡ false)
    pub pass : (conn.pass ≡ c.node.rpc_pass) × (text_eq c.node.rpc_pass [] ≡ false)
    pub parsed : first_bad host (env_vars host) ≡ none
    pub addressed : conn.host ≡ c.node.rpc_host
    pub sealed : conn.disable_tls ≡ c.node.rpc_no_tls
    pub trusted :
        IsTrusted (is_cert_named (node_config c)) (read_file c.node.rpc_cert) conn.certificates
    pub accepted : accepts conn ≡ true
    pub known_network : is_some (params_for_network c.node.network) ≡ true
    pub empty_hub : d.hub ≡ new_hub (limit_of c.server.max_ws_clients)
    pub handled : d.client.has_handlers ≡ true
    pub cut_off : is_available d.client disconnected ≡ false

  -- The parts of a daemon that is made.
  daemon_on-parts :
      (c : Config f) (now : ℕ) (net : Option Network) (d : Daemon f) (disconnected : Bool)
      → daemon_on c now net ≡ some d
      → (is_some net ≡ true)
        × (d.hub ≡ new_hub (limit_of c.server.max_ws_clients))
        × (d.client.has_handlers ≡ true)
        × (is_available d.client disconnected ≡ false)
  unfolding is_available
  daemon_on-parts c now none d disconnected h = absurd (none≢some h)
    where
      none≢some : none ≡ some d → ⊥
      none≢some e = cc
  daemon_on-parts c now (some net) d disconnected h =
      subst
        (λ (x : Daemon f).
          (is_some (some net) ≡ true)
          × (x.hub ≡ new_hub (limit_of c.server.max_ws_clients))
          × (x.client.has_handlers ≡ true)
          × (not (not x.client.ready || disconnected) ≡ false))
        (some_inj h) (refl, refl, refl, refl)

  -- A daemon that comes up has a configuration that names the user and the password of the node's RPC,
  -- with every variable of the environment that is set parsed, for a network that is known. Its
  -- connection is to the host and with the credentials of that configuration, plain only if it says so,
  -- and trusts the certificate that is named, which could be read. Its hub is empty with the configured
  -- cap, its handlers are set, and no call goes to the node before the connection has come up.
  pub boot-IsGuarded :
      (given : Text) (present : Bool) (static_dir : Text) (sub_ok : Bool) (now : ℕ) (d : Daemon f)
      (disconnected : Bool)
      → boot host read_file accepts given present static_dir sub_ok now ≡ ok d
      → (c : Config f) × (conn : ConnConfig) × IsGuarded
          (config_path given present)
          disconnected
          c
          conn
          d
  unfolding new_daemon new_node
  boot-IsGuarded given present static_dir sub_ok now d disconnected up =
      let (c, conn, loaded, made, node, static) =
        (boot_iff host read_file accepts given present static_dir sub_ok now d).0 up in
      let (user, pass, parsed) = load-given host (config_path given present) c loaded in
      let (certs, from, as_set, fresh, taken) =
        create_with-ok read_file accepts (node_config c)
          (certs_of read_file accepts (node_config c)) conn new_client node in
      let (known, hub, handlers, away) =
        daemon_on-parts c now (params_for_network c.node.network) d disconnected made in
      (
        c,
        conn,
        record {
          loaded = loaded;
          user = (ap ConnConfig.user as_set, user);
          pass = (ap ConnConfig.pass as_set, pass);
          parsed = parsed;
          addressed = ap ConnConfig.host as_set;
          sealed = ap ConnConfig.disable_tls as_set;
          trusted =
              subst (IsTrusted (is_cert_named (node_config c)) (read_file c.node.rpc_cert))
                (sym (ap ConnConfig.certificates as_set))
                (certs_of-IsTrusted (node_config c) certs from);
          accepted = ap accepts as_set ∙ taken;
          known_network = known;
          empty_hub = hub;
          handled = handlers;
          cut_off = away;
        },
      )
