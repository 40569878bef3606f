-- ===== src/Api/Login/Session.antt =====
-- internal/api/server.go: what a login gives.
use motzworks.Prelude.{
  ◌↔◌, ℕ, ◌+◌, ◌/◌, ◌≡◌, ◌∙◌, ap, refl, inl, inr, Bool, true, false, Option, none, some, Bool-cases,
  if◌then◌else◌, arith,
}
use motzworks.Prelude.Int.{pos, ltb_ℤ}
use motzworks.Text.{Text}
use motzworks.Auth.{Claims, CryptoLaws, issue_token, verify-issue, expired, ok, err}
use motzworks.Store.Accounts.{User}
use motzworks.Api.Site.{
  Request, Cookie, Site, Server, LoginBody, World, Decoded, good, bad, nanos, read_json,
  write_error,
}
use motzworks.Api.Login.{
  claims_from_request, handle_login, known_user, checked, session_claims, session_cookie, accepted,
}

accepted_if :
    (b : Bool) (x : Claims)
    → accepted (if b then err expired else ok x) ≡ (if b then none else some x)
accepted_if true x = refl
accepted_if false x = refl

module _ (srv : Server) (w : World) (r : Request) (s : Site) where
  -- The body names an account, with its password.
  unfoldable pub IsAdmitted : LoginBody → User → Type 0
  IsAdmitted req u =
      (w.decode_login r.body ≡ good req)
      × (known_user srv w req.username s ≡ some u)
      × (w.check_password u.password_hash req.password ≡ true)

  admitted_cookie :
      (req : LoginBody) (u : User) (token : Text)
      → IsAdmitted req u
      → issue_token w.crypto srv.secret (session_claims srv w u) ≡ some token
      → (handle_login srv w r s).1.cookie ≡ some (session_cookie srv w token)
  unfolding IsAdmitted handle_login read_json
  admitted_cookie req u token (d, k, p) e = rw (d, k, p, e) refl

  checked_cookie :
      (req : LoginBody) (o : Option User) (k : Cookie)
      → (checked srv w req r o s).1.cookie ≡ some k
      → (u : User) × (o ≡ some u) × (w.check_password u.password_hash req.password ≡ true)
  unfolding write_error
  checked_cookie req none k h = absurd (ground arith)
  checked_cookie req (some u) k h =
      elim (Bool-cases (w.check_password u.password_hash req.password)) [
        | inl p ↦ (u, refl, p)
        | inr p ↦ absurd (ground arith)
      ]

  cookie_admitted :
      (d : Decoded LoginBody) (k : Cookie)
      → (read_json d s (λ req. checked srv w req r (known_user srv w req.username s) s)).1.cookie
        ≡ some k
      → (req : LoginBody) × (u : User) × (d ≡ good req)
        × (known_user srv w req.username s ≡ some u)
        × (w.check_password u.password_hash req.password ≡ true)
  unfolding read_json write_error
  cookie_admitted (bad e) k h = absurd (ground arith)
  cookie_admitted (good req) k h =
      let (u, e, p) = checked_cookie req (known_user srv w req.username s) k h in
      (req, u, refl, e, p)

  -- If base64url decodes what it encodes and writes no dot, and claims survive JSON, a login sets
  -- a cookie exactly if its body decodes, names an account that the database gives, and has the
  -- password of that account.
  pub handle_login_iff :
      CryptoLaws w.crypto
      → ((k : Cookie) × ((handle_login srv w r s).1.cookie ≡ some k))
        ↔ ((req : LoginBody) × (u : User) × IsAdmitted req u)
  unfolding IsAdmitted handle_login
  handle_login_iff laws = (
    λ (k, h).
        let (req, u, d, e, p) = cookie_admitted (w.decode_login r.body) k h in (req, u, (d, e, p)),
    λ (req, u, a).
        let (token, e, v) =
          verify-issue w.crypto laws srv.secret (session_claims srv w u) (pos 0) in
        (session_cookie srv w token, admitted_cookie req u token a e),
  )

  -- If claims survive JSON, base64url decodes what it encodes and writes no dot, then the cookie
  -- of a login that is admitted, sent with any later request, gives the claims of the account as
  -- long as its second of expiry has not passed, and is refused afterwards.
  pub handle_login_session :
      (laws : CryptoLaws w.crypto) (req : LoginBody) (u : User) (later : ℕ) (q : Request)
      → IsAdmitted req u
      → (k : Cookie) × ((handle_login srv w r s).1.cookie ≡ some k)
        × (claims_from_request srv (record w { now = later }) (record q { cookie = some k.value })
            ≡ (if ltb_ℤ (pos ((w.now + srv.ttl) / nanos)) (pos (later / nanos))
                then none
                else some (session_claims srv w u)))
  unfolding claims_from_request
  handle_login_session laws req u later q a =
      let (token, e, v) =
        verify-issue w.crypto laws srv.secret (session_claims srv w u) (pos (later / nanos)) in
      (session_cookie srv w token, admitted_cookie req u token a e, ap accepted v ∙ accepted_if _ _)
