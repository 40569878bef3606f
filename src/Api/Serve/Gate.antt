-- ===== src/Api/Serve/Gate.antt =====
-- internal/api/server.go: the gates of the routes, and what a login leaves as it was.
use motzworks.Prelude.{
  ◌≡◌, refl, ap, ◌∙◌, ◌⊎◌, inl, inr, List, [], Option, none, some, Bool-cases, Option-cases, arith,
}
use motzworks.Text.{Text, text_eq, text_eq_iff, lit}
use motzworks.Auth.{Claims, role_admin, issue_token}
use motzworks.Store.Accounts.{User, Value}
use motzworks.Api.Site.{
  Request, Response, Site, Server, World, Decoded, good, bad, Call, LoginBody, add_entry, read_json,
  insert_audit_entry, read_json, touch,
}
use motzworks.Api.Admin.{unless_failed}
use motzworks.Api.Login.{
  claims_from_request, auth, admin, handle_login, known_user, checked, session_claims, touched,
}

-- No setting, no stored credential and no scan differs.
unfoldable pub IsKept : Site → Site → Type 0
IsKept s t = (t.tables ≡ s.tables) × (t.scans ≡ s.scans)

IsKept-trans : (s t v : Site) → IsKept s t → IsKept t v → IsKept s v
unfolding IsKept
IsKept-trans s t v (a, b) (c, d) = (c ∙ a, d ∙ b)

pub IsKept-if_same : (s t : Site) → t ≡ s → IsKept s t
unfolding IsKept
IsKept-if_same s t h = (ap (λ v. v.tables) h, ap (λ v. v.scans) h)

pub Decoded-cases :
    {A : Type 0} (d : Decoded A) → ((e : Text) × (d ≡ bad e)) ⊎ ((a : A) × (d ≡ good a))
Decoded-cases (bad e) = inl (e, refl)
Decoded-cases (good a) = inr (a, refl)

module _ (srv : Server) (w : World) (r : Request) where
  pub admin_gate :
      (next : Claims → Site → Site × Response) (s : Site)
      → ((admin srv w next r s).0 ≡ s)
        ⊎ ((c : Claims) × (claims_from_request srv w r ≡ some c)
            × (c.role ≡ role_admin)
            × (admin srv w next r s ≡ next c s))
  unfolding admin auth
  admin_gate next s = elim (Option-cases (claims_from_request srv w r)) [
    | inl e ↦ inl (rw e refl)
    | inr (c, e) ↦ elim (Bool-cases (text_eq c.role role_admin)) [
      | inl h ↦ inr (c, e, (text_eq_iff c.role role_admin).0 h, rw (e, h) refl)
      | inr h ↦ inl (rw (e, h) refl)
    ]
  ]

  pub auth_reads :
      (next : Claims → Site → Site × Response) (s : Site)
      → ((c : Claims) → (next c s).0 ≡ s)
      → (auth srv w next r s).0 ≡ s
  unfolding auth
  auth_reads next s h = elim (Option-cases (claims_from_request srv w r)) [
    | inl e ↦ rw e refl
    | inr (c, e) ↦ rw e (h c)
  ]

  pub unless_failed_reads :
      (call : Call) (s : Site) (answer : Response) → (unless_failed w call s (s, answer)).0 ≡ s
  unfolding unless_failed
  unless_failed_reads call s answer = ground arith

  add_entry_keeps :
      (actor action target : Text) (detail : List (Text × Value)) (s : Site)
      → IsKept s (add_entry w actor action target r detail s)
  unfolding IsKept add_entry
  add_entry_keeps actor action target detail s = elim (Bool-cases (w.fails insert_audit_entry)) [
    | inl h ↦ rw h (refl, refl)
    | inr h ↦ rw h (refl, refl)
  ]

  touched_keeps : (u : User) (s : Site) → IsKept s (touched srv w u s)
  unfolding IsKept
  touched_keeps u s = elim (Bool-cases (w.fails touch)) [
    | inl h ↦ rw h (refl, refl)
    | inr h ↦ rw h (refl, refl)
  ]

  checked_keeps :
      (req : LoginBody) (u : Option User) (s : Site) → IsKept s (checked srv w req r u s).0
  unfolding IsKept
  checked_keeps req none s = add_entry_keeps req.username (lit "login_failed") [] [] s
  checked_keeps req (some u) s = elim (Bool-cases (w.check_password u.password_hash req.password)) [
    | inr h ↦ rw h (add_entry_keeps req.username (lit "login_failed") [] [] s)
    | inl h ↦ elim (Option-cases (issue_token w.crypto srv.secret (session_claims srv w u))) [
      | inl e ↦ rw (h, e) (refl, refl)
      | inr (token, e) ↦
          rw (h, e)
            (IsKept-trans s (touched srv w u s)
              (add_entry w u.username (lit "login") [] r [] (touched srv w u s)) (touched_keeps u s)
              (add_entry_keeps u.username (lit "login") [] [] (touched srv w u s)))
    ]
  ]

  pub login_keeps : (s : Site) → IsKept s (handle_login srv w r s).0
  unfolding IsKept handle_login read_json
  login_keeps s = elim (Decoded-cases (w.decode_login r.body)) [
    | inl (e, h) ↦ rw h (refl, refl)
    | inr (req, h) ↦ rw h (checked_keeps req (known_user srv w req.username s) s)
  ]
