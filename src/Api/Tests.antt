-- ===== src/Api/Tests.antt =====
-- Examples for the theorems on the HTTP API.
use mathlib.Core.List.{Perm}
use motzworks.Store.Samples.{inserted-OrdersLaws}
use motzworks.Prelude.{
  ◌+◌, ◌/◌, ◌≡◌, ◌↔◌, refl, ◌⊎◌, false, [], ◌∷◌, ◌++◌, none, some, if◌then◌else◌,
}
use motzworks.Prelude.Int.{pos, ltb_ℤ}
use motzworks.Text.{lit, text_eq, is_empty}
use motzworks.Auth.{Claims}
use motzworks.Auth.Samples.{crypto_laws, box, box_laws, vault, nonce}
use motzworks.Vault
use motzworks.Store.Accounts.{User, AuditEntry, get_user_by_username}
use motzworks.Api.Site.{login, delete_target, create_credential, Cookie, LoginBody, nanos}
use motzworks.Api.Admin.{handle_create_credential, scan_options}
use motzworks.Api.Admin.Secrets.{
  handle_create_credential_secret, scan_options-handle_create_credential,
}
use motzworks.Api.Login.{claims_from_request, handle_login, session_claims, known_user}
use motzworks.Api.Login.Session.{IsAdmitted, handle_login_iff, handle_login_session}
use motzworks.Api.Serve.{serve}
use motzworks.Api.Serve.Gate.{IsKept}
use motzworks.Api.Serve.Guarded.{ByAdmin, serve_guarded, serve_logged}
use motzworks.Api.Serve.Logged.{IsBy}
use motzworks.Api.Samples.{srv, root, made, world, request, site}

serve_guarded_example :
    IsKept site (serve srv world (request delete_target []) site).0
    ⊎ ((c : Claims) × ByAdmin srv world (request delete_target []) c)
serve_guarded_example = serve_guarded srv world (request delete_target []) site

serve_logged_example :
    IsKept site (serve srv world (request delete_target []) site).0
    ⊎ ((c : Claims) × (e : AuditEntry) × ByAdmin srv world (request delete_target []) c
        × ((serve srv world (request delete_target []) site).0.log ≡ [] ++ e ∷ [])
        × IsBy world (request delete_target []) c e)
serve_logged_example = serve_logged srv world (request delete_target []) site refl

root-IsAdmitted :
    IsAdmitted srv world
      (request login (3 ∷ []))
      site
      (record { username = 2 ∷ []; password = 3 ∷ [] })
      root
unfolding IsAdmitted known_user get_user_by_username text_eq
root-IsAdmitted = (refl, refl, refl)

handle_login_iff_example :
    ((k : Cookie) × ((handle_login srv world (request login (3 ∷ [])) site).1.cookie ≡ some k))
    ↔ ((req : LoginBody) × (u : User) × IsAdmitted srv world (request login (3 ∷ [])) site req u)
handle_login_iff_example = handle_login_iff srv world (request login (3 ∷ [])) site crypto_laws

handle_login_session_example :
    (k : Cookie) × ((handle_login srv world (request login (3 ∷ [])) site).1.cookie ≡ some k)
    × (claims_from_request srv
          (record world { now = 50 })
          (record (request delete_target []) { cookie = some k.value })
        ≡ (if ltb_ℤ (pos ((5 + 100) / nanos)) (pos (50 / nanos))
            then none
            else some (session_claims srv world root)))
handle_login_session_example =
    handle_login_session srv world (request login (3 ∷ [])) site crypto_laws
      (record { username = 2 ∷ []; password = 3 ∷ [] }) root 50 (request delete_target [])
      root-IsAdmitted

abbrev caller : Claims
caller = record { user_id = 1 ∷ []; username = 2 ∷ []; role = lit "admin"; expires = pos 9 }

handle_create_credential_secret_example :
    let a = handle_create_credential srv world caller (request create_credential []) site in
    let b = handle_create_credential srv world caller (request create_credential (4 ∷ [])) site in
    (a.1 ≡ b.1)
    × (a.0 ≡ record b.0 { tables = a.0.tables })
    × (a.0.tables ≡ record b.0.tables { credential = a.0.tables.credential })
handle_create_credential_secret_example =
    handle_create_credential_secret srv world caller (request create_credential []) site [] (4 ∷ [])
      made (4 ∷ []) refl refl

seal_not_empty : is_empty (Vault.seal box vault nonce (9 ∷ 9 ∷ [])) ≡ false
unfolding Vault.seal
seal_not_empty = refl

scan_options-handle_create_credential_example :
    Perm
      (scan_options srv world []
        (handle_create_credential srv world caller
          (request create_credential [])
          site).0).credentials
      ((scan_options srv world [] site).credentials
        ++ record {
          id = 8 ∷ [];
          kind = lit "winrm";
          username = 2 ∷ [];
          secret = 9 ∷ 9 ∷ [];
          extra = [];
        }
          ∷ [])
unfolding lit
scan_options-handle_create_credential_example =
    scan_options-handle_create_credential srv world caller box_laws inserted-OrdersLaws
      (request create_credential []) site made refl refl refl refl refl seal_not_empty []
