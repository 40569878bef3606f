-- ===== src/Config.antt =====
-- internal/config/config.go. The YAML decoder (yaml.Unmarshal over a filled Config), the file and
-- the environment are parameters; os.Getenv gives "" for a variable that is not set.
use motzworks.Prelude.{
  ℕ, ◌≡◌, subst, refl, Bool, true, false, [], ◌∷◌, Option, none, some, arith, ap, sym, ◌∙◌,
  if◌then◌else◌,
}
use motzworks.Prelude.Int.{ℤ, pos, ltb_ℤ, ◌≤ℤ◌}
use motzworks.Text.{Text, lit, is_empty}
use motzworks.Text.Number.{atoi}

pub record LogConfig : Type 0 where
  pub level : Text
  pub format : Text

pub record DatabaseConfig : Type 0 where
  pub host : Text
  pub port : ℤ
  pub user : Text
  pub password : Text
  pub name : Text
  pub ssl_mode : Text

pub record ServerConfig : Type 0 where
  pub addr : Text

pub record VaultConfig : Type 0 where
  pub key_env : Text

pub record ScanConfig : Type 0 where
  pub concurrency : ℤ
  pub rate_per_sec : ℤ
  pub jitter_ms : ℤ

pub record AuthConfig : Type 0 where
  pub secret : Text
  pub session_hours : ℤ

pub record Config : Type 0 where
  pub log : LogConfig
  pub database : DatabaseConfig
  pub server : ServerConfig
  pub vault : VaultConfig
  pub scan : ScanConfig
  pub auth : AuthConfig

-- Default
unfoldable pub default : Config
unfolding lit
default = record {
  log = record { level = lit "info"; format = lit "text" };
  database = record {
    host = lit "localhost";
    port = pos 5432;
    user = lit "motzworks";
    password = [];
    name = lit "motzworks";
    ssl_mode = lit "disable";
  };
  server = record { addr = lit ":8080" };
  vault = record { key_env = lit "MOTZWORKS_VAULT_KEY" };
  scan = record { concurrency = pos 64; rate_per_sec = pos 0; jitter_ms = pos 0 };
  auth = record { secret = []; session_hours = pos 12 };
}

-- The variables that applyEnv reads.
pub record Env : Type 0 where
  pub db_host : Text
  pub db_port : Text
  pub db_user : Text
  pub db_password : Text
  pub db_name : Text
  pub db_sslmode : Text
  pub log_level : Text
  pub auth_secret : Text

-- if v := os.Getenv(…); v != "" { … = v }
abbrev pub override : Text → Text → Text
override [] old = old
override (c ∷ v) old = c ∷ v

abbrev pub override_port : Option ℤ → ℤ → ℤ
override_port none old = old
override_port (some p) old = p

-- applyEnv
unfoldable pub apply_env : Env → Config → Config
apply_env env c = record c {
  database = record {
    host = override env.db_host c.database.host;
    port = override_port (atoi env.db_port) c.database.port;
    user = override env.db_user c.database.user;
    password = override env.db_password c.database.password;
    name = override env.db_name c.database.name;
    ssl_mode = override env.db_sslmode c.database.ssl_mode;
  };
  log = record c.log { level = override env.log_level c.log.level };
  auth = record c.auth { secret = override env.auth_secret c.auth.secret };
}

pub data ConfigError : Type 0 where
  host_required port_required bad_concurrency unparsable unreadable : ConfigError

abbrev pub is_zero : ℤ → Bool
is_zero (pos ℕ.zero) = true
is_zero n = false

-- Validate: `none` is nil.
unfoldable pub validate : Config → Option ConfigError
validate c =
    if is_empty c.database.host
    then some host_required
    else if is_zero c.database.port
    then some port_required
    else if ltb_ℤ c.scan.concurrency (pos 1)
    then some bad_concurrency
    else none

pub data FileRead : Type 0 where
  contents : Text → FileRead
  missing : FileRead
  failing : FileRead

pub data Loaded : Type 0 where
  ok : Config → Loaded
  err : ConfigError → Loaded

abbrev pub checked : Option ConfigError → Config → Loaded
checked none c = ok c
checked (some e) c = err e

-- What makes a configuration usable.
pub record IsUsable (c : Config) : Type 0 where
  pub host : is_empty c.database.host ≡ false
  pub port : is_zero c.database.port ≡ false
  pub concurrency : pos 1 ≤ℤ c.scan.concurrency

-- Every variable that is set wins, except a port that is not a number.
pub record IsOverridden (env : Env) (c : Config) : Type 0 where
  pub host : is_empty env.db_host ≡ false → c.database.host ≡ env.db_host
  pub port : (p : ℤ) → atoi env.db_port ≡ some p → c.database.port ≡ p
  pub password : is_empty env.db_password ≡ false → c.database.password ≡ env.db_password
  pub secret : is_empty env.auth_secret ≡ false → c.auth.secret ≡ env.auth_secret

validate-IsUsable : (c : Config) → validate c ≡ none → IsUsable c
unfolding validate
validate-IsUsable c h = record {
  host = ground arith;
  port = ground arith;
  concurrency = ground arith;
}

override-set : (v old : Text) → is_empty v ≡ false → override v old ≡ v
override-set [] old h = absurd (ground arith)
override-set (x ∷ v) old h = refl

checked-ok : (r : Option ConfigError) (c' c : Config) → checked r c' ≡ ok c → (r ≡ none) × (c' ≡ c)
checked-ok none c' c h = (refl, ground arith)
checked-ok (some e) c' c h = absurd (ground arith)

module _ (yaml : Text → Config → Option Config) (env : Env) where
  unfoldable pub finish : Config → Loaded
  finish c = let c' = apply_env env c in checked (validate c') c'

  abbrev pub decoded : Option Config → Loaded
  decoded none = err unparsable
  decoded (some c) = finish c

  -- Load
  unfoldable pub load : Text → FileRead → Loaded
  unfolding finish
  load [] file = finish default
  load (c ∷ path) (contents text) = decoded (yaml text default)
  load (c ∷ path) missing = finish default
  load (c ∷ path) failing = err unreadable

  finish-ok : (c0 c : Config) → finish c0 ≡ ok c → (validate c ≡ none) × (apply_env env c0 ≡ c)
  unfolding finish
  finish-ok c0 c h =
      let (v, e) = checked-ok (validate (apply_env env c0)) (apply_env env c0) c h in
      (ap validate (sym e) ∙ v, e)

  apply_env-IsOverridden : (c : Config) → IsOverridden env (apply_env env c)
  unfolding apply_env
  apply_env-IsOverridden c = record {
    host = λ h. override-set env.db_host c.database.host h;
    port = λ p h. ap (λ o. override_port o c.database.port) h;
    password = λ h. override-set env.db_password c.database.password h;
    secret = λ h. override-set env.auth_secret c.auth.secret h;
  }

  finish_sound : (c0 c : Config) → finish c0 ≡ ok c → IsUsable c × IsOverridden env c
  finish_sound c0 c h =
      let (v, e) = finish-ok c0 c h in
      (validate-IsUsable c v, subst (IsOverridden env) e (apply_env-IsOverridden c0))

  decoded-ok : (r : Option Config) (c : Config) → decoded r ≡ ok c → IsUsable c × IsOverridden env c
  decoded-ok none c h = absurd (ground arith)
  decoded-ok (some c0) c h = finish_sound c0 c h

  -- A configuration that Load returns has a host, a port that is not 0 and a concurrency of at
  -- least 1. A database host, password or secret that is set in the environment, and a port there
  -- that is a number, win over the file and the defaults.
  pub load_sound :
      (path : Text) (file : FileRead) (c : Config)
      → load path file ≡ ok c
      → IsUsable c × IsOverridden env c
  unfolding load
  load_sound [] file c h = finish_sound default c h
  load_sound (x ∷ path) (contents text) c h = decoded-ok (yaml text default) c h
  load_sound (x ∷ path) missing c h = finish_sound default c h
  load_sound (x ∷ path) failing c h = absurd (ground arith)
