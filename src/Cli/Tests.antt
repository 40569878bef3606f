-- ===== src/Cli/Tests.antt =====
-- Examples for the theorems on the command line.
use motzworks.Prelude.{◌≡◌, ◌↔◌, refl, [], ◌∷◌, List, none, some, arith, true, false}
use motzworks.Text.{Text, lit, text_eq, text_eq_iff}
use motzworks.Config.{default, missing, load, validate, apply_env, finish}
use motzworks.Text.Number.{atoi}
use motzworks.Collector
use motzworks.Collector.{no_credential}
use motzworks.Vault
use motzworks.Store.Migrate.{Calls, Base, migrate, sort, sql_files, apply_all}
use motzworks.Cli.Serve.{ServeWorld, ServeFlags, Serving, serving, served, cmd_serve}
use motzworks.Cli.Ready.{IsReady, cmd_serve-IsReady}
use motzworks.Auth.{normalize_role}
use motzworks.Auth.Samples.{crypto_laws, box}
use motzworks.Store.Accounts.{User, create_user}
use motzworks.Api.Site.{World, Site, Cookie, good, login}
use motzworks.Api.Login.{handle_login, known_user}
use motzworks.Api.Samples.{srv, world, request, site}
use motzworks.Cli.Account.{UserFlags, UserWorld, cmd_user}
use motzworks.Cli.Account.Login.{login-cmd_user}
use motzworks.Cli.{
  CredFlags, Checked, ok, credential, other_credentials, build_credentials, parse_ports,
}
use motzworks.Cli.Ports.{IsRead, port_parts, parse_ports_iff}
use motzworks.Cli.Picked.{IsPicked, build_credentials-IsPicked}

parse_ports_iff_example :
    (parse_ports (λ s. s) (lit "22, 80") ≡ ok (22 ∷ 80 ∷ []))
    ↔ IsRead (port_parts (lit "22, 80")) (22 ∷ 80 ∷ [])
parse_ports_iff_example = parse_ports_iff (λ s. s) (lit "22, 80") (22 ∷ 80 ∷ [])

abbrev flags : CredFlags
flags = record {
  ssh_user = lit "ops";
  ssh_pass = [];
  ssh_key = lit "id";
  snmp_community = lit "public";
  winrm_user = [];
  winrm_pass = [];
  wmi_user = lit "dom";
  wmi_pass = [];
  wmi_domain = [];
  proxmox_token = [];
  proxmox_secret = [];
  opnsense_key = [];
  opnsense_secret = [];
  fortigate_token = [];
}

abbrev read_key : Text → Checked Text
read_key path = ok (lit "key")

built :
    build_credentials read_key flags
    ≡ ok (credential (lit "ssh-key") (lit "ops") (lit "key") ∷ other_credentials flags)
unfolding build_credentials lit
built = refl

build_credentials-IsPicked_example :
    IsPicked flags (credential (lit "ssh-key") (lit "ops") (lit "key") ∷ other_credentials flags)
build_credentials-IsPicked_example =
    build_credentials-IsPicked read_key flags
      (credential (lit "ssh-key") (lit "ops") (lit "key") ∷ other_credentials flags) built

-- `user add`, with a hash that is the password.
abbrev user_world : UserWorld
user_world = record {
  load = ok default;
  hash_password = λ p. ok p;
  open_store = λ cfg. ok tt;
  insert_error = none;
  new_id = lit "u1";
  now = 3;
}

abbrev user_flags : List Text → UserFlags
user_flags args = record { username = lit "ann"; password = lit "pw"; role = lit "admin" }

saved_test : (cmd_user (λ s. s) user_flags user_world (lit "add" ∷ []) []).0 ≡ ok (lit "u1")
unfolding cmd_user create_user normalize_role text_eq lit
saved_test = refl

abbrev web : World
web = record world {
  decode_login = λ s. good (record { username = lit "ann"; password = lit "pw" });
}

abbrev left : Site
left = record site { users = (cmd_user (λ s. s) user_flags user_world (lit "add" ∷ []) []).1 }

checks :
    (hash : Text)
    → ◌≡◌ {A = Checked Text} (ok (lit "pw")) (ok hash)
    → text_eq hash (lit "pw") ≡ true
checks hash h = ground (arith, text_eq_iff hash (lit "pw"))

login-cmd_user_example :
    (k : Cookie) × ((handle_login srv web (request login []) left).1.cookie ≡ some k)
    × (u : User) × (known_user srv web (lit "ann") left ≡ some u)
    × (u.id ≡ lit "u1")
    × (normalize_role (lit "admin") ≡ some u.role)
login-cmd_user_example =
    login-cmd_user (λ s. s) user_flags user_world [] [] (lit "u1") srv web (request login []) left
      saved_test checks crypto_laws refl refl refl

-- `serve -migrate` over a directory without migrations.
abbrev calls : Calls Text
calls = record {
  create_fails = false;
  read_dir = some [];
  exists_fails = λ v. false;
  read_file = λ f. none;
  exec = λ sql s. none;
  insert_fails = λ v. true;
}

abbrev key : Text
key = lit "0123456789abcdef0123456789abcdef"

abbrev serve_world : ServeWorld Text
serve_world = record {
  yaml = λ t c. none;
  env = record {
    db_host = [];
    db_port = [];
    db_user = [];
    db_password = [];
    db_name = [];
    db_sslmode = [];
    log_level = [];
    auth_secret = [];
  };
  file = missing;
  getenv = λ name. key;
  box = record box { decode = λ t. some t };
  generate_secret = some (lit "s");
  to_bytes = λ t. t;
  open_store = λ cfg. ok tt;
  calls = calls;
  collect = λ k t. Collector.err no_credential;
  assets_error = none;
  listen_error = λ addr. none;
  config_message = λ e. [];
  vault_message = λ e. [];
  migrate_message = [];
}

abbrev serve_flags : ServeFlags
serve_flags = record { path = []; addr = []; migrate_first = true }

abbrev base : Base Text
base = record { versions = []; schema = [] }

abbrev running : Serving
running = serving serve_world serve_flags default (record { key = key })

serve_test : cmd_serve serve_world serve_flags base ≡ (served running none, base)
unfolding cmd_serve load finish validate apply_env default Vault.from_env Vault.new migrate sort
    sql_files apply_all lit atoi
serve_test = refl

cmd_serve-IsReady_example : IsReady serve_world serve_flags base running base
cmd_serve-IsReady_example =
    cmd_serve-IsReady serve_world serve_flags base running none base serve_test
