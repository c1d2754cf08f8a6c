-- ===== src/Config/Loading.antt =====
-- What a configuration that was loaded has been checked for, and where the environment counts.
use Prim.Native.String.{len}
use devagent.Base.{
  ◌≤◌, ◌≡◌, ◌≢◌, ◌⊎◌, inl, inr, refl, sym, pos, leb_ℤ, String, false, Option, none, arith,
  Bool-cases, Option-cases, str_eq, eq_iff, ok, In, contains→In,
}
use devagent.Config.{
  GlobalConfig, default_global_config, Environment, override, apply_env_overrides, log_levels,
  validate, finish, load,
}

-- What `Validate` is to guarantee.
pub record IsValid (c : GlobalConfig) : Type 0 where
  pub secret_long : (c.token.secret ≡ "") ⊎ (16 ≤ len c.token.secret)
  pub ttl_positive : leb_ℤ c.sidecar.dedup_ttl (pos 0) ≡ false
  pub timeout_longer : leb_ℤ c.daemon.heartbeat_timeout c.daemon.heartbeat_interval ≡ false
  pub level_known : In c.log_level log_levels

validate-IsValid : (c : GlobalConfig) → validate c ≡ none → IsValid c
unfolding validate
validate-IsValid c h = record {
  secret_long = elim (Bool-cases (str_eq c.token.secret "")) [
    | inl unset ↦ inl (ground (arith, eq_iff c.token.secret ""))
    | inr set ↦ inr (ground (arith, set))
  ];
  ttl_positive = ground arith;
  timeout_longer = ground arith;
  level_known = contains→In log_levels c.log_level (ground arith);
}

-- The variable is not set, or the field has its value.
abbrev pub Counts : String → String → Type 0
Counts v field = (v ≡ "") ⊎ (field ≡ v)

override-Counts : (v field : String) → Counts v (override v field)
unfolding override
override-Counts v field = elim (Bool-cases (str_eq v "")) [
  | inl unset ↦ inl (ground (arith, eq_iff v ""))
  | inr set ↦ inr (rw (override, set) refl)
]

-- Each variable of the environment that is set has its value in the configuration.
pub record Reflects (env : Environment) (c : GlobalConfig) : Type 0 where
  pub secret : Counts env.token_secret c.token.secret
  pub level : Counts env.log_level c.log_level
  pub cert : Counts env.tls_cert c.tls.cert_path
  pub key : Counts env.tls_key c.tls.key_path
  pub state : Counts env.state_path c.daemon.state_path

apply_env_overrides-Reflects :
    (env : Environment) (c : GlobalConfig) → Reflects env (apply_env_overrides env c)
unfolding apply_env_overrides
apply_env_overrides-Reflects env c = record {
  secret = override-Counts env.token_secret c.token.secret;
  level = override-Counts env.log_level c.log_level;
  cert = override-Counts env.tls_cert c.tls.cert_path;
  key = override-Counts env.tls_key c.tls.key_path;
  state = override-Counts env.state_path c.daemon.state_path;
}

default_global_config-IsValid : IsValid default_global_config
default_global_config-IsValid = record {
  secret_long = inl refl;
  ttl_positive = refl;
  timeout_longer = refl;
  level_known = inr (inl refl);
}

module _ {Data : Type 0} (read_file : String → Option Data)
    (parse : Data → GlobalConfig → Option GlobalConfig) where
  finish-IsValid :
      (env : Environment) (parsed cfg : GlobalConfig)
      → finish read_file parse env parsed ≡ ok cfg
      → IsValid cfg × Reflects env cfg
  unfolding finish
  finish-IsValid env parsed cfg h =
      elim (Option-cases (validate (apply_env_overrides env parsed))) [
        | inr (e, refused) ↦ absurd (ground arith)
        | inl valid ↦
            let same : apply_env_overrides env parsed ≡ cfg = ground arith in
            rw (← same) (
              validate-IsValid (apply_env_overrides env parsed) valid,
              apply_env_overrides-Reflects env parsed,
            )
      ]

  -- A configuration that `Load` returns is valid. With a path, every variable of the environment that
  -- is set counts; with none, it is the default one, whatever the environment says.
  pub load-IsValid :
      (path : String) (env : Environment) (cfg : GlobalConfig)
      → load read_file parse path env ≡ ok cfg
      → IsValid cfg
        × (((path ≡ "") × (cfg ≡ default_global_config)) ⊎ ((path ≢ "") × Reflects env cfg))
  unfolding load
  load-IsValid path env cfg h = elim (Bool-cases (str_eq path "")) [
    | inl unnamed ↦
        let same : default_global_config ≡ cfg = ground arith in
        (rw (← same) default_global_config-IsValid, inl (ground (arith, eq_iff path ""), sym same))
    | inr named ↦ elim (Option-cases (read_file path)) [
      | inl missing ↦ absurd (ground arith)
      | inr (bytes, read) ↦ elim (Option-cases (parse bytes default_global_config)) [
        | inl broken ↦ absurd (ground arith)
        | inr (parsed, good) ↦
            let rest : finish read_file parse env parsed ≡ ok cfg =
              rw (load, named, read, good) at h in
            let (valid, counts) = finish-IsValid env parsed cfg rest in
            (valid, inr (ground (arith, eq_iff path ""), counts))
      ]
    ]
  ]
