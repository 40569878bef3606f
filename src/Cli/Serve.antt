-- ===== src/Cli/Serve.antt =====
-- cmd/motzworks/serve.go: what is set up before the server listens. The signal handler, the
-- shutdown and the log lines are left out; the texts of the errors of other packages are parameters.
use motzworks.Prelude.{
  ◌+◌, ◌-◌, ◌%◌, ◌^◌, Bool, false, [], ◌++◌, Option, none, some, ltb, if◌then◌else◌,
}
use motzworks.Prelude.Int.{ℤ, pos, pos_part, neg_part, sub_ℕ, ◌*ℤ◌}
use motzworks.Text.{Text, lit, is_empty}
use motzworks.Collector.{Target, Collected, Registry, new_registry}
use motzworks.Collector.Registered.{Kind, register_collectors}
use motzworks.Config
use motzworks.Config.{Config, ConfigError, Env, FileRead, Loaded}
use motzworks.Vault
use motzworks.Vault.{Vault, VaultError, Box, Bytes}
use motzworks.Store.Migrate.{Base, Calls, Applied, finished, stopped, migrate}
use motzworks.Scheduler
use motzworks.Scheduler.{Scheduler}
use motzworks.Api.Site
use motzworks.Cli.{Checked, ok, err}

-- An integer of 64 bits, after an overflow.
unfoldable pub wrap_int64 : ℤ → ℤ
wrap_int64 n =
    let u = (pos_part n + (2 ^ 64 - neg_part n % 2 ^ 64)) % 2 ^ 64 in
    if ltb u (2 ^ 63) then pos u else sub_ℕ u (2 ^ 64)

pub record ServeFlags : Type 0 where
  pub path : Text
  pub addr : Text
  pub migrate_first : Bool

pub record ServeWorld (S : Type 0) : Type 0 where
  pub yaml : Text → Config → Option Config
  pub env : Env
  pub file : FileRead
  pub getenv : Text → Text
  pub box : Box
  pub generate_secret : Option Text
  pub to_bytes : Text → Bytes
  pub open_store : Config → Checked (Unit {0})
  pub calls : Calls S
  pub collect : Kind → Target → Collected
  pub assets_error : Option Text
  pub listen_error : Text → Option Text
  pub config_message : ConfigError → Text
  pub vault_message : VaultError → Text
  pub migrate_message : Text

-- What runs while the server listens.
pub record Serving : Type 0 where
  pub config : Config
  pub vault : Vault
  pub server : Site.Server
  pub scheduler : Scheduler
  pub registry : Registry
  pub addr : Text

-- The server has listened, or an error came before.
pub data Served : Type 0 where
  served : Serving → Option Text → Served
  refused : Text → Served

abbrev pub or_blank : Option Text → Text
or_blank none = []
or_blank (some s) = s

module _ {S : Type 0} (w : ServeWorld S) (f : ServeFlags) where
  -- The configured secret, or one for this run; an error of GenerateSecret is dropped.
  abbrev pub session_secret : Config → Text
  session_secret cfg =
      if is_empty cfg.auth.secret then or_blank w.generate_secret else cfg.auth.secret

  abbrev pub serving : Config → Vault → Serving
  serving cfg v = record {
    config = cfg;
    vault = v;
    server =
        Site.new (w.to_bytes (session_secret cfg))
          (wrap_int64 (cfg.auth.session_hours *ℤ pos 3_600_000_000_000)) cfg.scan.concurrency false;
    scheduler =
        Scheduler.new (pos 30_000_000_000) cfg.scan.concurrency cfg.scan.rate_per_sec
          (wrap_int64 (cfg.scan.jitter_ms *ℤ pos 1_000_000));
    registry = register_collectors w.collect new_registry;
    addr = if is_empty f.addr then cfg.server.addr else f.addr;
  }

  abbrev pub listened : Serving → Option Text → Served
  listened x none = served x (w.listen_error x.addr)
  listened x (some e) = refused (lit "web assets: " ++ e)

  abbrev pub after_migrate : Config → Vault → Applied × Base S → Served × Base S
  after_migrate cfg v (stopped versions, b) = (refused (lit "migrate: " ++ w.migrate_message), b)
  after_migrate cfg v (finished versions, b) = (listened (serving cfg v) w.assets_error, b)

  abbrev pub after_open : Config → Vault → Checked (Unit {0}) → Base S → Served × Base S
  after_open cfg v (err e) b = (refused e, b)
  after_open cfg v (ok _) b =
      if f.migrate_first
      then after_migrate cfg v (migrate w.calls b)
      else (listened (serving cfg v) w.assets_error, b)

  abbrev pub after_vault : Config → Vault.Outcome Vault → Base S → Served × Base S
  after_vault cfg (Vault.err e) b = (
    refused (
        lit "vault: "
        ++ (w.vault_message e
            ++ (lit " (generate one with `motzworks vault genkey` and export "
                ++ (cfg.vault.key_env ++ lit ")")))),
    b,
  )
  after_vault cfg (Vault.ok v) b = after_open cfg v (w.open_store cfg) b

  abbrev pub after_load : Loaded → Base S → Served × Base S
  after_load (Config.err e) b = (refused (w.config_message e), b)
  after_load (Config.ok cfg) b =
      after_vault cfg (Vault.from_env w.box (w.getenv cfg.vault.key_env)) b

  -- cmdServe, after the parse.
  unfoldable pub cmd_serve : Base S → Served × Base S
  unfolding lit
  cmd_serve b = after_load (Config.load w.yaml w.env f.path w.file) b
