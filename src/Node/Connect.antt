-- ===== src/Node/Connect.antt =====
-- internal/node/client.go: how the client is made. `read_file` is `os.ReadFile`, and `accepts` is
-- whether `rpcclient.New` takes the connection's configuration.
use btcdwatch_com.Base.{
  ◌≡◌, refl, [], Option, none, some, Bool, true, false, not, ◌&&◌, if◌then◌else◌, inl, inr,
  Bool-cases, sym, ap, ◌∙◌,
}
use btcdwatch_com.Base.Action.{Result, ok, err, ok_inj, err≢ok}
use btcdwatch_com.Base.Text.{Text, codes, text_eq}
use btcdwatch_com.Node.{Client, new_client}

-- `node.Config`.
pub record NodeConfig : Type 0 where
  pub host : Text
  pub user : Text
  pub pass : Text
  pub cert_path : Text
  pub no_tls : Bool

-- `rpcclient.ConnConfig`, the fields that are set. No certificates are the nil slice.
pub record ConnConfig : Type 0 where
  pub host : Text
  pub endpoint : Text
  pub user : Text
  pub pass : Text
  pub certificates : Option Text
  pub disable_tls : Bool
  pub disable_connect_on_new : Bool

pub data NewError : Type 0 where
  read_rpc_cert create_rpc_client : NewError

abbrev pub conn_config : NodeConfig → Option Text → ConnConfig
conn_config cfg certs = record {
  host = cfg.host;
  endpoint = codes "ws";
  user = cfg.user;
  pass = cfg.pass;
  certificates = certs;
  disable_tls = cfg.no_tls;
  disable_connect_on_new = true;
}

module _ (read_file : Text → Option Text) (accepts : ConnConfig → Bool) where
  abbrev pub or_unreadable : Option Text → Result NewError (Option Text)
  or_unreadable none = err read_rpc_cert
  or_unreadable (some pem) = ok (some pem)

  -- The certificates of the connection.
  unfoldable pub certs_of : NodeConfig → Result NewError (Option Text)
  unfolding text_eq
  certs_of cfg =
      if not cfg.no_tls && not (text_eq cfg.cert_path [])
      then or_unreadable (read_file cfg.cert_path)
      else ok none

  abbrev pub create_with :
      NodeConfig → Result NewError (Option Text) → Result NewError (ConnConfig × Client)
  create_with cfg (err x) = err x
  create_with cfg (ok certs) =
      if accepts (conn_config cfg certs)
      then ok (conn_config cfg certs, new_client)
      else err create_rpc_client

  -- `New`: the client and the configuration of its connection.
  unfoldable pub new_node : NodeConfig → Result NewError (ConnConfig × Client)
  unfolding certs_of
  new_node cfg = create_with cfg (certs_of cfg)

  pub create_with-ok :
      (cfg : NodeConfig) (r : Result NewError (Option Text)) (conn : ConnConfig) (c : Client)
      → create_with cfg r ≡ ok (conn, c)
      → (certs : Option Text) × (r ≡ ok certs)
        × (conn ≡ conn_config cfg certs)
        × (c ≡ new_client)
        × (accepts (conn_config cfg certs) ≡ true)
  create_with-ok cfg (err x) conn c made = absurd (err≢ok made)
  create_with-ok cfg (ok certs) conn c made = elim (Bool-cases (accepts (conn_config cfg certs))) [
    | inl taken ↦
        let same = ok_inj (rw taken at made) in
        (certs, refl, sym (ap (λ p. p.0) same), sym (ap (λ p. p.1) same), taken)
    | inr refused ↦ absurd (err≢ok (rw refused at made))
  ]

  or_unreadable-ok :
      (o : Option Text) (certs : Option Text) → or_unreadable o ≡ ok certs → certs ≡ o
  or_unreadable-ok none certs h = absurd (err≢ok h)
  or_unreadable-ok (some pem) certs h = sym (ok_inj h)

  certs_of-named :
      (cfg : NodeConfig) (certs : Option Text)
      → cfg.no_tls ≡ false
      → text_eq cfg.cert_path [] ≡ false
      → certs_of cfg ≡ ok certs
      → certs ≡ read_file cfg.cert_path
  unfolding certs_of
  certs_of-named cfg certs tls named h =
      or_unreadable-ok (read_file cfg.cert_path) certs (rw (tls, named) at h)

  -- A client that is made is a new one, its connection is plain exactly if the configuration says so,
  -- and when TLS is on and a certificate is named, then the connection trusts that file's content: a
  -- file that cannot be read is an error, and never a connection without it.
  pub new_node-sealed :
      (cfg : NodeConfig) (conn : ConnConfig) (c : Client)
      → new_node cfg ≡ ok (conn, c)
      → (c ≡ new_client)
        × (conn.disable_tls ≡ cfg.no_tls)
        × (cfg.no_tls ≡ false
            → text_eq cfg.cert_path [] ≡ false
            → conn.certificates ≡ read_file cfg.cert_path)
  unfolding new_node
  new_node-sealed cfg conn c made =
      let (certs, from, as_set, fresh, taken) = create_with-ok cfg (certs_of cfg) conn c made in
      (
        fresh,
        ap (λ k. k.disable_tls) as_set,
        λ tls named. ap (λ k. k.certificates) as_set ∙ certs_of-named cfg certs tls named from,
      )
