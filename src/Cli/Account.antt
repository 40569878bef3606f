-- ===== src/Cli/Account.antt =====
-- cmd/motzworks/user.go.
pub mod Login
use motzworks.Prelude.{
  ℕ, ◌≡◌, refl, sym, ap, ◌∙◌, subst, Bool, true, false, ◌||◌, not, List, [], ◌∷◌, ◌++◌, Option,
  none, some, arith, find_first, if◌then◌else◌, Bool-cases, Option-cases, inl, inr,
}
use motzworks.Text.{Text, lit, is_empty, text_eq, text_eq_iff}
use motzworks.Auth.{CryptoLaws, normalize_role}
use motzworks.Config.{Config}
use motzworks.Store.Accounts.{User, named, update_user, upserted, create_user, get_user_by_username}
use motzworks.Cli.{Checked, ok, err, then_check}
use motzworks.Api.Site.{Request, Cookie, Site, Server, World, LoginBody, good, get_user}
use motzworks.Api.Login.{handle_login, known_user}
use motzworks.Api.Login.Session.{IsAdmitted, handle_login_iff}

pub record UserFlags : Type 0 where
  pub username : Text
  pub password : Text
  pub role : Text

-- What the command calls: bcrypt, and the database with the id that it makes up and its clock.
pub record UserWorld : Type 0 where
  pub load : Checked Config
  pub hash_password : Text → Checked Text
  pub open_store : Config → Checked (Unit {0})
  pub insert_error : Option Text
  pub new_id : Text
  pub now : ℕ

module _ (quote : Text → Text) (parse : List Text → UserFlags) (w : UserWorld) where
  -- The role that NormalizeRole gives, or its error.
  abbrev pub role_or : Text → Option Text → Checked Text
  role_or given none = err (lit "invalid role " ++ (quote given ++ lit " (want admin or viewer)"))
  role_or given (some role) = ok role

  abbrev pub saved : Text → Text → Text → Option Text → List User → Checked Text × List User
  saved username hash role (some e) us = (err e, us)
  saved username hash role none us =
      let (id, us') = create_user w.new_id w.now username hash role us in (ok id, us')

  abbrev pub prepared : UserFlags → Checked (Text × Text)
  prepared f =
      if is_empty f.username || is_empty f.password
      then err (lit "user add requires -username and -password")
      else then_check (role_or f.role (normalize_role f.role)) λ role. then_check w.load λ cfg.
        then_check (w.hash_password f.password)
          λ hash. then_check (w.open_store cfg) λ _. ok (role, hash)

  abbrev pub added : UserFlags → Checked (Text × Text) → List User → Checked Text × List User
  added f (err e) us = (err e, us)
  added f (ok (role, hash)) us = saved f.username hash role w.insert_error us

  -- cmdUser: the id that it prints, and the accounts.
  unfoldable pub cmd_user : List Text → List User → Checked Text × List User
  unfolding lit
  cmd_user [] us =
      (err (lit "usage: motzworks user add -username <u> -password <p> [-role admin|viewer]"), us)
  cmd_user (word ∷ args) us =
      if not (text_eq word (lit "add"))
      then (
        err (lit "usage: motzworks user add -username <u> -password <p> [-role admin|viewer]"),
        us,
      )
      else added (parse args) (prepared (parse args)) us
