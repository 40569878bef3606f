-- ===== src/Cli/Commands.antt =====
-- cmd/motzworks/main.go and commands.go. What is printed is left out. Of the package flag only the
-- result of a parse is used; a parse that fails ends the process with the exit code 2.
use motzworks.Prelude.{ℕ, ◌||◌, List, [], ◌∷◌, if◌then◌else◌}
use motzworks.Text.{Text, lit, is_empty, text_eq}
use motzworks.Config.{Config}
use motzworks.Store.Migrate.{Base, Calls, Applied, finished, stopped, migrate}
use motzworks.Vault.{Box, Bytes}
use motzworks.Cli.{Checked, ok, err, then_check}

pub data Command : Type 0 where
  config migrate_up scan serve user vault : Command

-- What the first argument asks for.
pub data Action : Type 0 where
  print_version print_usage misused : Action
  run : Command → Action

-- The switch of main.
unfoldable pub action_of : Text → Action
unfolding lit
action_of word =
    if text_eq word (lit "version") || text_eq word (lit "-v") || text_eq word (lit "--version")
    then print_version
    else if text_eq word (lit "config")
    then run config
    else if text_eq word (lit "migrate")
    then run migrate_up
    else if text_eq word (lit "scan")
    then run scan
    else if text_eq word (lit "serve")
    then run serve
    else if text_eq word (lit "user")
    then run user
    else if text_eq word (lit "vault")
    then run vault
    else if text_eq word (lit "help") || text_eq word (lit "-h") || text_eq word (lit "--help")
    then print_usage
    else misused

-- What a command ends with: its error or none, or the end of the process by flag.
pub data Ended : Type 0 where
  done : Ended
  error : Text → Ended
  bad_flags : Ended

abbrev pub exit_code : Ended → ℕ
exit_code done = 0
exit_code (error e) = 1
exit_code bad_flags = 2

abbrev pub acted : (Command → List Text → Ended) → List Text → Action → ℕ
acted commands args print_version = 0
acted commands args print_usage = 0
acted commands args misused = 2
acted commands args (run c) = exit_code (commands c args)

-- main: the exit code, of the arguments after the program's name.
unfoldable pub main : (Command → List Text → Ended) → List Text → ℕ
main commands [] = 2
main commands (word ∷ args) = acted commands args (action_of word)

-- fs.Arg(0)
abbrev pub first_arg : List Text → Text
first_arg [] = []
first_arg (a ∷ args) = a

abbrev pub only : Text → List Text → Text → Checked (Unit {0})
only sub args usage =
    if is_empty (first_arg args) || text_eq (first_arg args) sub then ok tt else err usage

-- cmdConfig, after the parse: the configuration that it prints.
unfoldable pub cmd_config : Checked Config → List Text → Checked Config
unfolding lit
cmd_config load args =
    then_check (only (lit "check") args (lit "usage: motzworks config check [-config path]"))
      λ _. load

module _ {S : Type 0} (calls : Calls S) (load : Checked Config)
    (open_store : Config → Checked (Unit {0})) (migrate_error : Text) where
  abbrev pub applied_or : Applied × Base S → Checked (List Text) × Base S
  applied_or (finished versions, b) = (ok versions, b)
  applied_or (stopped versions, b) = (err migrate_error, b)

  abbrev pub migrated : Checked (Unit {0}) → Base S → Checked (List Text) × Base S
  migrated (err e) b = (err e, b)
  migrated (ok _) b = applied_or (migrate calls b)

  -- cmdMigrate, after the parse: the versions that it logs, and the database.
  unfoldable pub cmd_migrate : List Text → Base S → Checked (List Text) × Base S
  unfolding lit
  cmd_migrate args b =
      migrated
        (then_check (only (lit "up") args (lit "usage: motzworks migrate up [-config path]"))
          λ _. then_check load open_store)
        b

abbrev pub encoded_key : Box → Checked Bytes → Checked Text
encoded_key b (err e) = err e
encoded_key b (ok key) = ok (b.encode key)

-- GenerateKey, of what rand.Reader gives.
unfoldable pub generate_key : Box → Checked Bytes → Checked Text
generate_key b random = encoded_key b random

-- cmdVault, after the parse: the key that it prints.
unfoldable pub cmd_vault : Box → Checked Bytes → List Text → Checked Text
unfolding lit
cmd_vault b random args =
    if text_eq (first_arg args) (lit "genkey")
    then generate_key b random
    else err (lit "usage: motzworks vault genkey")
