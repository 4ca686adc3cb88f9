-- ===== src/Config/Load.antt =====
-- internal/config/config.go: what a configuration that loads has, and the error of one that does not.
use btcdwatch_com.Base.{
  ◌≡◌, refl, sym, ◌∙◌, ap, List, [], ◌∷◌, Option, none, some, Bool, true, false, inl, inr,
  Bool-cases,
}
use btcdwatch_com.Base.Action.{Result, ok, err, err≢ok, ok_inj}
use btcdwatch_com.Base.Float.{Float}
use btcdwatch_com.Base.Text.{Text, text_eq}
use btcdwatch_com.Config.{
  Config, Host, Var, Loading, LoadError, text_var, bool_var, number_var, invalid_boolean,
  invalid_number, set_var, set_parsed, key_of, apply_vars, env_vars, apply_env, load, from_file,
  with_credentials, with_env, end_vars,
}

module _ {f : Float} (host : Host f) where
  -- The error of a variable by itself, whatever the configuration is.
  abbrev pub unless_parsed : {A : Type 0} → LoadError → A × Bool → Option LoadError
  unless_parsed bad (a, true) = none
  unless_parsed bad (a, false) = some bad

  abbrev pub error_of : Var f → Option Text → Option LoadError
  error_of v none = none
  error_of (text_var key set) (some v) = none
  error_of (bool_var key set) (some v) = unless_parsed (invalid_boolean key v) (host.parse_bool v)
  error_of (number_var key set) (some v) = unless_parsed (invalid_number key v) (host.parse_float v)

  abbrev pub or_else : Option LoadError → Option LoadError → Option LoadError
  or_else (some x) later = some x
  or_else none later = later

  -- The error of the first variable that has one.
  abbrev pub first_bad : List (Var f) → Option LoadError
  first_bad [] = none
  first_bad (v ∷ vs) = or_else (error_of v (host.lookup_env (key_of host v))) (first_bad vs)

  set_parsed-failed :
      {A : Type 0} (bad : LoadError) (set : A → Config f → Config f) (p : A × Bool) (l : Loading f)
      (old : Option LoadError)
      → l.failed ≡ old
      → (set_parsed bad set p l).failed ≡ or_else old (unless_parsed bad p)
  set_parsed-failed bad set (a, true) l none h = h
  set_parsed-failed bad set (a, true) l (some x) h = h
  set_parsed-failed bad set (a, false) l none h = rw h refl
  set_parsed-failed bad set (a, false) l (some x) h = rw h refl

  set_var-failed :
      (v : Var f) (value : Option Text) (l : Loading f) (old : Option LoadError)
      → l.failed ≡ old
      → (set_var host v value l).failed ≡ or_else old (error_of v value)
  set_var-failed (text_var key set) none l none h = h
  set_var-failed (text_var key set) none l (some x) h = h
  set_var-failed (bool_var key set) none l none h = h
  set_var-failed (bool_var key set) none l (some x) h = h
  set_var-failed (number_var key set) none l none h = h
  set_var-failed (number_var key set) none l (some x) h = h
  set_var-failed (text_var key set) (some v) l none h = h
  set_var-failed (text_var key set) (some v) l (some x) h = h
  set_var-failed (bool_var key set) (some v) l old h =
      set_parsed-failed (invalid_boolean key v) set (host.parse_bool v) l old h
  set_var-failed (number_var key set) (some v) l old h =
      set_parsed-failed (invalid_number key v) set (host.parse_float v) l old h

  or_else_assoc : (a b c : Option LoadError) → or_else (or_else a b) c ≡ or_else a (or_else b c)
  or_else_assoc none b c = refl
  or_else_assoc (some x) b c = refl

  or_else-none : (a : Option LoadError) → or_else a none ≡ a
  or_else-none none = refl
  or_else-none (some x) = refl

  apply_vars-failed :
      (vs : List (Var f)) (l : Loading f)
      → (apply_vars host vs l).failed ≡ or_else l.failed (first_bad vs)
  unfolding apply_vars
  apply_vars-failed [] l = sym (or_else-none l.failed)
  apply_vars-failed (v ∷ vs) l =
      let value = host.lookup_env (key_of host v) in
      apply_vars-failed vs (set_var host v value l)
      ∙ ap (λ x. or_else x (first_bad vs)) (set_var-failed v value l l.failed refl)
      ∙ or_else_assoc l.failed (error_of v value) (first_bad vs)

  vars_after : Config f → Loading f
  vars_after c = apply_vars host (env_vars host) (record { config = c; failed = none })

  end_vars-failed :
      (l : Loading f) (failed : Option LoadError)
      → l.failed ≡ failed
      → end_vars host l ≡ elim failed [ none ↦ ok l.config | some x ↦ err x ]
  end_vars-failed l failed h = rw h refl

  apply_env-error :
      (c : Config f) (x : LoadError) → first_bad (env_vars host) ≡ some x → apply_env host c ≡ err x
  unfolding apply_env
  apply_env-error c x bad =
      let start : Loading f = record { config = c; failed = none } in
      end_vars-failed (apply_vars host (env_vars host) start) (some x)
        (apply_vars-failed (env_vars host) start ∙ bad)

  -- When the file, if one is named, is read, and a variable of the environment does not parse, the load
  -- fails, and its error is that of the first such variable, whatever the file and the others say.
  pub load-first_bad :
      (path : Text) (c : Config f) (x : LoadError)
      → from_file host path ≡ ok c
      → first_bad (env_vars host) ≡ some x
      → load host path ≡ err x
  unfolding load
  load-first_bad path c x read bad = rw (read, apply_env-error c x bad) refl

  with_credentials-given :
      (r : Result LoadError (Config f)) (c : Config f)
      → with_credentials host r ≡ ok c
      → (r ≡ ok c) × (text_eq c.node.rpc_user [] ≡ false) × (text_eq c.node.rpc_pass [] ≡ false)
  with_credentials-given (err x) c h = absurd (err≢ok h)
  with_credentials-given (ok d) c h = elim (Bool-cases (text_eq d.node.rpc_user [])) [
    | inl no_user ↦ absurd (err≢ok (rw no_user at h))
    | inr user ↦ elim (Bool-cases (text_eq d.node.rpc_pass [])) [
      | inl no_pass ↦ absurd (err≢ok (rw (user, no_pass) at h))
      | inr pass ↦
          let same : d ≡ c = ok_inj (rw (user, pass) at h) in
          (ap ok same, rw⁻¹ same user, rw⁻¹ same pass)
    ]
  ]

  with_env-first_bad :
      (r : Result LoadError (Config f)) (c : Config f)
      → with_env host r ≡ ok c
      → first_bad (env_vars host) ≡ none
  with_env-first_bad (err x) c h = absurd (err≢ok h)
  with_env-first_bad (ok d) c h = by_error (first_bad (env_vars host)) refl
    where
      by_error : (bad : Option LoadError) → first_bad (env_vars host) ≡ bad → bad ≡ none
      by_error none e = refl
      by_error (some x) e = absurd (err≢ok (sym (apply_env-error d x e) ∙ h))

  -- A configuration that loads names the user and the password of the node's RPC, and each variable of
  -- the environment that was set has parsed.
  pub load-given :
      (path : Text) (c : Config f)
      → load host path ≡ ok c
      → (text_eq c.node.rpc_user [] ≡ false)
        × (text_eq c.node.rpc_pass [] ≡ false)
        × (first_bad (env_vars host) ≡ none)
  unfolding load
  load-given path c h =
      let (loaded, user, pass) = with_credentials-given (with_env host (from_file host path)) c h in
      (user, pass, with_env-first_bad (from_file host path) c loaded)
