-- ===== src/Cli/Ready.antt =====
-- A server that has been started: cmd/motzworks/serve.go, with vault genkey of commands.go.
use motzworks.Prelude.{
  ◌≡◌, refl, sym, ap, ◌∙◌, subst, ◌⊎◌, inl, inr, true, false, not, List, Option, none, some, arith,
  length, Bool-cases, nat_eq, if◌then◌else◌, [], ◌∷◌,
}
use motzworks.Text.{Text}
use motzworks.Config
use motzworks.Config.{Config, Loaded, IsUsable, IsOverridden, load_sound}
use motzworks.Vault
use motzworks.Vault.{Vault, Box, BoxLaws, Bytes, key_size}
use motzworks.Store.Migrate.{Base, Applied, finished, stopped, migrate}
use motzworks.Api.Site
use motzworks.Cli.{Checked, ok, err}
use motzworks.Cli.Serve.{
  ServeFlags, ServeWorld, Serving, Served, served, refused, listened, after_migrate, after_open,
  after_vault, after_load, serving, session_secret, cmd_serve,
}

-- A server that listened: how it was configured, and what became of the database.
pub record IsReady {S : Type 0} (w : ServeWorld S) (f : ServeFlags) (b : Base S) (x : Serving)
    (b' : Base S) : Type 0 where
  pub loaded : Config.load w.yaml w.env f.path w.file ≡ Config.ok x.config
  pub usable : IsUsable x.config
  pub overridden : IsOverridden w.env x.config
  pub keyed : Vault.from_env w.box (w.getenv x.config.vault.key_env) ≡ Vault.ok x.vault
  pub key_fits : length x.vault.key ≡ key_size
  pub opened : w.open_store x.config ≡ ok tt
  pub signed : x.server.secret ≡ w.to_bytes (session_secret w f x.config)
  pub migrated :
      ((f.migrate_first ≡ false) × (b' ≡ b))
      ⊎ ((f.migrate_first ≡ true)
          × (versions : List Text) × (migrate w.calls b ≡ (finished versions, b')))

serving_or : Serving → Served → Serving
serving_or x (served y e) = y
serving_or x (refused m) = x

module _ (b : Box) where
  opened_key :
      (o : Option Bytes) (v : Vault)
      → Vault.decoded o Vault.bad_key_encoding (λ raw.
        if not (nat_eq (length raw) key_size)
        then Vault.err (Vault.wrong_key_size (length raw))
        else Vault.ok (record { key = raw }))
        ≡ Vault.ok v
      → length v.key ≡ key_size
  opened_key none v h = absurd (ground arith)
  opened_key (some raw) v h = ground arith

  from_env-key : (s : Text) (v : Vault) → Vault.from_env b s ≡ Vault.ok v → length v.key ≡ key_size
  unfolding Vault.from_env Vault.new
  from_env-key [] v h = absurd (ground arith)
  from_env-key (c ∷ s) v h = opened_key (b.decode (c ∷ s)) v h

module _ {S : Type 0} (w : ServeWorld S) (f : ServeFlags) (b : Base S) (x : Serving)
    (e : Option Text) (b' : Base S) where
  served_lem :
      (y : Serving) (o : Option Text) (c : Base S)
      → ◌≡◌ {A = Served × Base S} (listened w f y o, c) (served x e, b')
      → (y ≡ x) × (c ≡ b')
  unfolding serving_or
  served_lem y none c h = (ap (serving_or y) (ap (λ r. r.0) h), ap (λ r. r.1) h)
  served_lem y (some m) c h = absurd (ground arith)

  module _ (cfg : Config) (v : Vault)
      (loaded : Config.load w.yaml w.env f.path w.file ≡ Config.ok cfg)
      (keyed : Vault.from_env w.box (w.getenv cfg.vault.key_env) ≡ Vault.ok v) where
    ready :
        w.open_store cfg ≡ ok tt
        → ((f.migrate_first ≡ false) × (b' ≡ b))
          ⊎ ((f.migrate_first ≡ true)
              × (versions : List Text) × (migrate w.calls b ≡ (finished versions, b')))
        → serving w f cfg v ≡ x
        → IsReady w f b x b'
    unfolding Site.new
    ready opened migrated same =
        subst (λ y. IsReady w f b y b') same
          (record {
            loaded = loaded;
            usable = (load_sound w.yaml w.env f.path w.file cfg loaded).0;
            overridden = (load_sound w.yaml w.env f.path w.file cfg loaded).1;
            keyed = keyed;
            key_fits = from_env-key w.box (w.getenv cfg.vault.key_env) v keyed;
            opened = opened;
            signed = refl;
            migrated = migrated;
          })

    migrated-IsReady :
        (a : Applied × Base S)
        → w.open_store cfg ≡ ok tt
        → f.migrate_first ≡ true
        → migrate w.calls b ≡ a
        → after_migrate w f cfg v a ≡ (served x e, b')
        → IsReady w f b x b'
    migrated-IsReady (stopped versions, c) opened first m h = absurd (ground arith)
    migrated-IsReady (finished versions, c) opened first m h =
        let (same, kept) = served_lem (serving w f cfg v) w.assets_error c h in
        ready opened (inr (first, versions, m ∙ ap (λ c. (finished versions, c)) kept)) same

    opened-IsReady :
        (o : Checked (Unit {0}))
        → w.open_store cfg ≡ o
        → after_open w f cfg v o b ≡ (served x e, b')
        → IsReady w f b x b'
    opened-IsReady (err m) opened h = absurd (ground arith)
    opened-IsReady (ok tt) opened h = elim (Bool-cases f.migrate_first) [
      | inl first ↦ migrated-IsReady (migrate w.calls b) opened first refl (rw first at h)
      | inr not_first ↦
          let (same, kept) = served_lem (serving w f cfg v) w.assets_error b (rw not_first at h) in
          ready opened (inl (not_first, sym kept)) same
    ]

  loaded-IsReady :
      (cfg : Config) (o : Vault.Outcome Vault)
      → Config.load w.yaml w.env f.path w.file ≡ Config.ok cfg
      → Vault.from_env w.box (w.getenv cfg.vault.key_env) ≡ o
      → after_vault w f cfg o b ≡ (served x e, b')
      → IsReady w f b x b'
  loaded-IsReady cfg (Vault.err m) loaded keyed h = absurd (ground arith)
  loaded-IsReady cfg (Vault.ok v) loaded keyed h =
      opened-IsReady cfg v loaded keyed (w.open_store cfg) refl h

  started-IsReady :
      (l : Loaded)
      → Config.load w.yaml w.env f.path w.file ≡ l
      → after_load w f l b ≡ (served x e, b')
      → IsReady w f b x b'
  started-IsReady (Config.err m) loaded h = absurd (ground arith)
  started-IsReady (Config.ok cfg) loaded h =
      loaded-IsReady cfg (Vault.from_env w.box (w.getenv cfg.vault.key_env)) loaded refl h

  -- A server that has listened was started with the configuration that Load returns, which has a
  -- host, a port that is not 0 and a concurrency of at least 1, and in which a database host, port
  -- (if it is a number), password and secret that are set in the environment win over the file and
  -- the defaults; and with the vault of the key of 32 bytes that the named variable holds; it
  -- signs with the configured secret, or if none is configured with what GenerateSecret returns,
  -- which is empty if that fails; the database could be opened, and it is as it was, or migrations
  -- were asked for, and it is what a run of them left that had no error.
  pub cmd_serve-IsReady : cmd_serve w f b ≡ (served x e, b') → IsReady w f b x b'
  unfolding cmd_serve
  cmd_serve-IsReady h = started-IsReady (Config.load w.yaml w.env f.path w.file) refl h
