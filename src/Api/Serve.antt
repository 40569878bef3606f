-- ===== src/Api/Serve.antt =====
-- internal/api/server.go: Handler, the table of the routes.
pub mod Gate
pub mod Guarded
pub mod Logged
use motzworks.Text.{lit}
use motzworks.Auth.{Claims}
use motzworks.Api.Site.{
  Route, Request, Response, Site, Server, World, login, logout, health, metrics, me, stats, devices,
  device, devices_csv, software, software_devices, changes, scans, scan_detail, list_targets,
  list_schedules, trigger_scan, create_target, delete_target, list_credentials, create_credential,
  delete_credential, create_schedule, audit_log, unknown_api, static, write_error,
}
use motzworks.Api.Admin.{
  handle_trigger_scan, handle_audit, handle_list_targets, handle_create_target,
  handle_delete_target, handle_list_credentials, handle_create_credential, handle_delete_credential,
  handle_list_schedules, handle_create_schedule,
}
use motzworks.Api.Read.{
  handle_stats, handle_devices, handle_device, handle_devices_csv, handle_software,
  handle_software_devices, handle_changes, handle_scans, handle_scan_detail,
}
use motzworks.Api.Login.{auth, admin, handle_login, handle_logout, handle_me, handle_health}

module _ (srv : Server) (w : World) where
  -- A handler that only answers.
  abbrev only : Response → Claims → Site → Site × Response
  only answer c s = (s, answer)

  unfoldable pub serve_route : Route → Request → Site → Site × Response
  unfolding lit
  serve_route login r s = handle_login srv w r s
  serve_route logout r s = (s, handle_logout srv w r)
  serve_route health r s = (s, handle_health r)
  serve_route metrics r s = (s, w.metrics)
  serve_route me r s = auth srv w (λ c t. (t, handle_me c)) r s
  serve_route stats r s = auth srv w (only (handle_stats w r)) r s
  serve_route devices r s = auth srv w (only (handle_devices w r)) r s
  serve_route device r s = auth srv w (only (handle_device w r)) r s
  serve_route devices_csv r s = auth srv w (only (handle_devices_csv w r)) r s
  serve_route software r s = auth srv w (only (handle_software w r)) r s
  serve_route software_devices r s = auth srv w (only (handle_software_devices w r)) r s
  serve_route changes r s = auth srv w (only (handle_changes w r)) r s
  serve_route scans r s = auth srv w (only (handle_scans w r)) r s
  serve_route scan_detail r s = auth srv w (only (handle_scan_detail w r)) r s
  serve_route list_targets r s = auth srv w (λ c. handle_list_targets srv w r) r s
  serve_route list_schedules r s = auth srv w (λ c. handle_list_schedules srv w r) r s
  serve_route trigger_scan r s = admin srv w (λ c. handle_trigger_scan srv w c r) r s
  serve_route create_target r s = admin srv w (λ c. handle_create_target srv w c r) r s
  serve_route delete_target r s = admin srv w (λ c. handle_delete_target srv w c r) r s
  serve_route list_credentials r s = admin srv w (λ c. handle_list_credentials srv w r) r s
  serve_route create_credential r s = admin srv w (λ c. handle_create_credential srv w c r) r s
  serve_route delete_credential r s = admin srv w (λ c. handle_delete_credential srv w c r) r s
  serve_route create_schedule r s = admin srv w (λ c. handle_create_schedule srv w c r) r s
  serve_route audit_log r s = admin srv w (λ c. handle_audit srv w r) r s
  serve_route unknown_api r s = (s, write_error 404 (lit "not found"))
  serve_route static r s = (s, w.static_files r)

  -- Handler
  unfoldable pub serve : Request → Site → Site × Response
  serve r s = serve_route r.route r s
