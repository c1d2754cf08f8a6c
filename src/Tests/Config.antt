-- ===== src/Tests/Config.antt =====
-- internal/config's tests, and an instance of the theorem on loading.
use devagent.Base.{◌≡◌, ◌≢◌, ◌⊎◌, refl, Option, some, String, ok, err, contains}
use devagent.Config.{
  GlobalConfig, Environment, default_global_config, load, override, apply_env_overrides, validate,
  finish, secret_too_short,
}
use devagent.Config.Loading.{IsValid, Reflects, load-IsValid}

abbrev env : Environment
env = record {
  token_secret = "0123456789abcdef";
  log_level = "";
  tls_cert = "";
  tls_key = "";
  state_path = "";
}

abbrev read : String → Option String
read path = some ""

abbrev keep_all : String → GlobalConfig → Option GlobalConfig
keep_all bytes cfg = some cfg

abbrev with_secret : GlobalConfig
with_secret = record default_global_config {
  token = record default_global_config.token { secret = "0123456789abcdef" };
}

loaded : load read keep_all "devagent.yaml" env ≡ ok with_secret
unfolding load finish apply_env_overrides override validate contains
loaded = refl

-- With no file, the secret of the environment is not read.
unread : load read keep_all "" env ≡ ok default_global_config
unfolding load
unread = refl

short_secret :
    load read keep_all "devagent.yaml" (record env { token_secret = "short" })
    ≡ err secret_too_short
unfolding load finish apply_env_overrides override validate contains
short_secret = refl

load-IsValid_example :
    IsValid with_secret
    × (((◌≡◌ {A = String} "devagent.yaml" "") × (with_secret ≡ default_global_config))
        ⊎ ((◌≢◌ {A = String} "devagent.yaml" "") × Reflects env with_secret))
load-IsValid_example = load-IsValid read keep_all "devagent.yaml" env with_secret loaded
