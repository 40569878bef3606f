-- ===== src/Api/Login.antt =====
-- internal/api/server.go: sessions. The session's cookie, if a request has one, is its token.
pub mod Session
use motzworks.Prelude.{ℕ, ◌+◌, ◌/◌, Bool, true, false, [], Option, none, some, if◌then◌else◌}
use motzworks.Prelude.Int.{pos}
use motzworks.Text.{Text, lit, text_eq}
use motzworks.Auth
use motzworks.Auth.{Claims, Verified, TokenError, ok, err, verify_token, issue_token, role_admin}
use motzworks.Store.Accounts.{User, get_user_by_username, touch_login}
use motzworks.Api.Site.{
  Request, Response, Cookie, Site, Server, LoginBody, World, nanos, status, account, reply,
  write_error, add_entry, read_json, get_user, touch,
}

abbrev pub accepted : Verified → Option Claims
accepted (ok c) = some c
accepted (err e) = none

module _ (srv : Server) (w : World) where
  abbrev pub verified_cookie : Option Text → Option Claims
  verified_cookie none = none
  verified_cookie (some token) =
      accepted (verify_token w.crypto srv.secret (pos (w.now / nanos)) token)

  -- claimsFromRequest; `none` is its error.
  unfoldable pub claims_from_request : Request → Option Claims
  claims_from_request r = verified_cookie r.cookie

  abbrev pub or_unauthorized :
      Option Claims → (Claims → Site → Site × Response) → Site → Site × Response
  or_unauthorized none next s = (s, write_error 401 (lit "unauthorized"))
  or_unauthorized (some c) next s = next c s

  -- auth
  unfoldable pub auth : (Claims → Site → Site × Response) → Request → Site → Site × Response
  unfolding lit
  auth next r s = or_unauthorized (claims_from_request r) next s

  -- admin
  unfoldable pub admin : (Claims → Site → Site × Response) → Request → Site → Site × Response
  unfolding lit
  admin next r s =
      auth
        (λ c t.
          if text_eq c.role role_admin
          then next c t
          else (t, write_error 403 (lit "admin role required")))
        r s

  -- The claims of a session that begins now.
  abbrev pub session_claims : User → Claims
  session_claims u = record {
    user_id = u.id;
    username = u.username;
    role = u.role;
    expires = pos ((w.now + srv.ttl) / nanos);
  }

  abbrev pub session_cookie : Text → Cookie
  session_cookie token = record {
    value = token;
    expires = some (w.now + srv.ttl);
    deleted = false;
    http_only = true;
    secure = srv.secure_cookie;
  }

  abbrev pub touched : User → Site → Site
  touched u s = if w.fails touch then s else record s { users = touch_login w.now u.id s.users }

  abbrev issued : Request → User → Option Text → Site → Site × Response
  issued r u none s = (s, write_error 500 (lit "could not issue token"))
  issued r u (some token) s = (
    add_entry w u.username (lit "login") [] r [] (touched u s),
    record {
      code = 200;
      payload = account u.username u.role;
      cookie = some (session_cookie token);
    },
  )

  -- GetUserByUsername; an error of the database is like an unknown name.
  unfoldable pub known_user : Text → Site → Option User
  known_user username s = if w.fails get_user then none else get_user_by_username username s.users

  abbrev refused : LoginBody → Request → Site → Site × Response
  refused req r s = (
    add_entry w req.username (lit "login_failed") [] r [] s,
    write_error 401 (lit "invalid credentials"),
  )

  abbrev pub checked : LoginBody → Request → Option User → Site → Site × Response
  checked req r none s = refused req r s
  checked req r (some u) s =
      if w.check_password u.password_hash req.password
      then issued r u (issue_token w.crypto srv.secret (session_claims u)) s
      else refused req r s

  -- handleLogin
  unfoldable pub handle_login : Request → Site → Site × Response
  unfolding lit
  handle_login r s =
      read_json (w.decode_login r.body) s λ req. checked req r (known_user req.username s) s

  -- handleLogout
  unfoldable pub handle_logout : Request → Response
  unfolding lit
  handle_logout r = record {
    code = 200;
    payload = status (lit "ok");
    cookie = some (record {
      value = [];
      expires = none;
      deleted = true;
      http_only = true;
      secure = srv.secure_cookie;
    });
  }

-- handleMe
unfoldable pub handle_me : Claims → Response
handle_me c = reply 200 (account c.username c.role)

-- handleHealth
unfoldable pub handle_health : Request → Response
unfolding lit
handle_health r = reply 200 (status (lit "ok"))
