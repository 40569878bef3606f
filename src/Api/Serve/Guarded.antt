-- ===== src/Api/Serve/Guarded.antt =====
-- internal/api/server.go and handlers_admin.go: who may change what, and what the log says of it.
use motzworks.Prelude.{◌≡◌, refl, ◌∙◌, ap, ◌⊎◌, inl, inr, false, [], ◌∷◌, ◌++◌, some}
use motzworks.Auth.{Claims, role_admin}
use motzworks.Store.Accounts.{AuditEntry}
use motzworks.Api.Site.{
  Route, Request, Response, Site, Server, World, login, logout, health, metrics, me, stats, devices,
  device, devices_csv, software, software_devices, changes, scans, scan_detail, list_targets,
  list_schedules, trigger_scan, create_target, delete_target, list_credentials, create_credential,
  delete_credential, create_schedule, audit_log, unknown_api, static, read_targets, read_schedules,
  insert_audit_entry,
}
use motzworks.Api.Admin.{
  handle_list_targets, handle_list_schedules, handle_list_credentials, handle_audit,
}
use motzworks.Api.Login.{claims_from_request, auth, admin}
use motzworks.Api.Serve.{serve_route, serve}
use motzworks.Api.Serve.Gate.{
  IsKept, IsKept-if_same, admin_gate, auth_reads, unless_failed_reads, login_keeps,
}
use motzworks.Api.Serve.Logged.{
  IsBy, IsLogged, unless_failed_logs, trigger_scan_logs, create_target_logs, delete_target_logs,
  create_credential_logs, delete_credential_logs, create_schedule_logs,
}

module _ (srv : Server) (w : World) (r : Request) where
  -- The request's token is that of an admin.
  pub ByAdmin : Claims → Type 0
  ByAdmin c = (claims_from_request srv w r ≡ some c) × (c.role ≡ role_admin)

  -- A route behind the admin gate, whose handler logs what it does.
  IsGated : Site → Site × Response → Type 0
  IsGated s o =
      (next : Claims → Site → Site × Response) × (o ≡ admin srv w next r s)
      × (w.fails insert_audit_entry ≡ false → (c : Claims) → IsLogged srv w r c s (next c s))

  of_viewer :
      (next : Claims → Site → Site × Response) (s : Site)
      → ((c : Claims) → (next c s).0 ≡ s)
      → IsKept s (auth srv w next r s).0 ⊎ IsGated s (auth srv w next r s)
  of_viewer next s h = inl (IsKept-if_same s _ (auth_reads srv w r next s h))

  serve_route_cases :
      (route : Route) (s : Site)
      → IsKept s (serve_route srv w route r s).0 ⊎ IsGated s (serve_route srv w route r s)
  unfolding IsKept IsGated IsLogged serve_route handle_list_targets handle_list_schedules
      handle_list_credentials handle_audit
  serve_route_cases login s = inl (login_keeps srv w r s)
  serve_route_cases logout s = inl (refl, refl)
  serve_route_cases health s = inl (refl, refl)
  serve_route_cases metrics s = inl (refl, refl)
  serve_route_cases me s = of_viewer _ s (λ c. refl)
  serve_route_cases stats s = of_viewer _ s (λ c. refl)
  serve_route_cases devices s = of_viewer _ s (λ c. refl)
  serve_route_cases device s = of_viewer _ s (λ c. refl)
  serve_route_cases devices_csv s = of_viewer _ s (λ c. refl)
  serve_route_cases software s = of_viewer _ s (λ c. refl)
  serve_route_cases software_devices s = of_viewer _ s (λ c. refl)
  serve_route_cases changes s = of_viewer _ s (λ c. refl)
  serve_route_cases scans s = of_viewer _ s (λ c. refl)
  serve_route_cases scan_detail s = of_viewer _ s (λ c. refl)
  serve_route_cases list_targets s =
      of_viewer _ s (λ c. unless_failed_reads srv w r read_targets s _)
  serve_route_cases list_schedules s =
      of_viewer _ s (λ c. unless_failed_reads srv w r read_schedules s _)
  serve_route_cases trigger_scan s = inr (_, refl, λ works c. trigger_scan_logs srv w r c works s)
  serve_route_cases create_target s = inr (_, refl, λ works c. create_target_logs srv w r c works s)
  serve_route_cases delete_target s = inr (_, refl, λ works c. delete_target_logs srv w r c works s)
  serve_route_cases list_credentials s =
      inr (_, refl, λ works c. unless_failed_logs srv w r c _ s _ (inl refl))
  serve_route_cases create_credential s =
      inr (_, refl, λ works c. create_credential_logs srv w r c works s)
  serve_route_cases delete_credential s =
      inr (_, refl, λ works c. delete_credential_logs srv w r c works s)
  serve_route_cases create_schedule s =
      inr (_, refl, λ works c. create_schedule_logs srv w r c works s)
  serve_route_cases audit_log s =
      inr (_, refl, λ works c. unless_failed_logs srv w r c _ s _ (inl refl))
  serve_route_cases unknown_api s = inl (refl, refl)
  serve_route_cases static s = inl (refl, refl)

  gated_guarded :
      (s : Site) (o : Site × Response) → IsGated s o → IsKept s o.0 ⊎ ((c : Claims) × ByAdmin c)
  unfolding IsGated ByAdmin
  gated_guarded s o (next, h, logs) = elim (admin_gate srv w r next s) [
    | inl e ↦ inl (IsKept-if_same s o.0 (ap (λ p. p.0) h ∙ e))
    | inr (c, e, a, g) ↦ inr (c, (e, a))
  ]

  gated_logged :
      (s : Site) (o : Site × Response)
      → w.fails insert_audit_entry ≡ false
      → IsGated s o
      → IsKept s o.0
        ⊎ ((c : Claims) × (e : AuditEntry) × ByAdmin c × (o.0.log ≡ s.log ++ e ∷ []) × IsBy w r c e)
  unfolding IsGated ByAdmin IsLogged
  gated_logged s o works (next, h, logs) = elim (admin_gate srv w r next s) [
    | inl e ↦ inl (IsKept-if_same s o.0 (ap (λ p. p.0) h ∙ e))
    | inr (c, e, a, g) ↦ elim (logs works c) [
      | inl same ↦ inl (IsKept-if_same s o.0 (ap (λ p. p.0) (h ∙ g) ∙ same))
      | inr (entry, l, b) ↦ inr (c, entry, (e, a), ap (λ p. p.0.log) (h ∙ g) ∙ l, b)
    ]
  ]

-- A request leaves the settings, the stored credentials and the scans as they were, unless it
-- carries a token that verifies with the role admin.
pub serve_guarded :
    (srv : Server) (w : World) (r : Request) (s : Site)
    → IsKept s (serve srv w r s).0 ⊎ ((c : Claims) × ByAdmin srv w r c)
unfolding serve
serve_guarded srv w r s = elim (serve_route_cases srv w r r.route s) [
  | inl k ↦ inl k
  | inr g ↦ gated_guarded srv w r s _ g
]

-- If the audit log can be written, a request leaves the settings, the stored credentials and the
-- scans as they were, or it carries the token of an admin and adds one entry to the log, by the
-- account of that token, from the client's address and of now.
pub serve_logged :
    (srv : Server) (w : World) (r : Request) (s : Site)
    → w.fails insert_audit_entry ≡ false
    → IsKept s (serve srv w r s).0
      ⊎ ((c : Claims) × (e : AuditEntry) × ByAdmin srv w r c
          × ((serve srv w r s).0.log ≡ s.log ++ e ∷ [])
          × IsBy w r c e)
unfolding serve
serve_logged srv w r s works = elim (serve_route_cases srv w r r.route s) [
  | inl k ↦ inl k
  | inr g ↦ gated_logged srv w r s _ works g
]
