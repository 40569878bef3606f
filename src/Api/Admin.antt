-- ===== src/Api/Admin.antt =====
-- internal/api/handlers_admin.go: what an admin may do.
pub mod Secrets
use motzworks.Prelude.{
  Bool, true, ◌||◌, List, [], ◌∷◌, ◌++◌, ◌/◌, Option, none, some, map, if◌then◌else◌,
}
use motzworks.Prelude.Int.{ℤ, pos, ltb_ℤ}
use motzworks.Text.{Text, lit, is_empty}
use motzworks.Auth.{Claims}
use motzworks.Vault
use motzworks.Scan.Credentials.{decrypt_credentials, snmp_probe}
use motzworks.Scheduler.{ScanOptions}
use motzworks.Store.Targets.{
  ScanTarget, Tables, create_scan_target, get_scan_target, create_credential, delete_credential,
  list_credentials, create_schedule, list_scan_targets, list_schedules, delete_scan_target,
}
use motzworks.Store.Accounts.{AuditEntry, Value, word, words, number, list_audit}
use motzworks.Api.Site.{
  Request, Payload, Response, Site, Server, ScanBody, TargetBody, CredentialBody, ScheduleBody,
  Decoded, Call, World, status, created, targets, credentials, schedules, entries, reply,
  write_error, server_error, query_int, audit, nanos, to_json, read_json, get_target,
  read_credentials, put_target, drop_target, put_credential, drop_credential, put_schedule,
  read_targets, read_schedules, read_audit,
}

-- `enabled := true; if req.Enabled != nil { enabled = *req.Enabled }`
abbrev pub enabled_or_true : Option Bool → Bool
enabled_or_true none = true
enabled_or_true (some b) = b

-- `if err != nil { s.serverError(w, err); return }`
unfoldable pub unless_failed : World → Call → Site → Site × Response → Site × Response
unless_failed w call s done = if w.fails call then (s, server_error) else done

abbrev is_nil : List Text → Bool
is_nil [] = true
is_nil (c ∷ cs) = Bool.false

module _ (srv : Server) (w : World) where
  unfoldable pub scan_options : List Text → Site → ScanOptions
  scan_options specs s =
      let creds =
        decrypt_credentials w.box w.to_text w.vault (list_credentials w.orders s.tables) in
      record {
        specs = specs;
        credentials = creds;
        collect_workers = srv.concurrency;
        probe = snmp_probe creds;
        rate_per_sec = pos 0;
        jitter = pos 0;
      }

  -- From `if len(specs) == 0` on.
  unfoldable pub start_scan : Claims → Request → Text → List Text → Site → Site × Response
  unfolding lit write_error
  start_scan c r target_id specs s =
      if is_nil specs
      then (s, write_error 400 (lit "no targets specified"))
      else unless_failed w read_credentials s (
        audit w c (lit "trigger_scan") target_id r ((lit "targets", words specs) ∷ [])
            (record s { scans = s.scans ++ scan_options specs s ∷ [] }),
        reply 202 (status (lit "scan started")),
      )

  abbrev pub scan_target_specs :
      Claims → Request → Text → Option ScanTarget → Site → Site × Response
  scan_target_specs c r target_id none s = (s, write_error 404 (lit "scan target not found"))
  scan_target_specs c r target_id (some t) s = start_scan c r target_id t.cidrs s

  -- handleTriggerScan
  unfoldable pub handle_trigger_scan : Claims → Request → Site → Site × Response
  handle_trigger_scan c r s = read_json (w.decode_scan r.body) s λ req.
      if is_empty req.target_id
      then start_scan c r req.target_id req.targets s
      else unless_failed w get_target s
          (scan_target_specs c r req.target_id (get_scan_target req.target_id s.tables) s)

  -- handleAudit
  unfoldable pub handle_audit : Request → Site → Site × Response
  unfolding lit
  handle_audit r s =
      unless_failed w read_audit s
        (s, reply 200 (entries (list_audit (query_int r (lit "limit") (pos 100)) s.log)))

  -- handleListTargets
  unfoldable pub handle_list_targets : Request → Site → Site × Response
  handle_list_targets r s =
      unless_failed w read_targets s (s, reply 200 (targets (list_scan_targets w.orders s.tables)))

  -- handleCreateTarget
  unfoldable pub handle_create_target : Claims → Request → Site → Site × Response
  unfolding lit write_error
  handle_create_target c r s = read_json (w.decode_target r.body) s λ req.
      if is_empty req.name || is_nil req.cidrs
      then (s, write_error 400 (lit "name and cidrs are required"))
      else unless_failed w put_target s (
          let (id, t) =
            create_scan_target w.new_id req.name req.cidrs (enabled_or_true req.enabled) s.tables in
          (
            audit w c (lit "create_target") req.name r ((lit "cidrs", words req.cidrs) ∷ [])
                (record s { tables = t }),
            reply 201 (created id),
          ))

  -- handleDeleteTarget
  unfoldable pub handle_delete_target : Claims → Request → Site → Site × Response
  unfolding lit
  handle_delete_target c r s = unless_failed w drop_target s (
    audit w c (lit "delete_target") r.path_id r []
        (record s { tables = delete_scan_target r.path_id s.tables }),
    reply 200 (status (lit "deleted")),
  )

  -- handleListCredentials
  unfoldable pub handle_list_credentials : Request → Site → Site × Response
  handle_list_credentials r s =
      unless_failed w read_credentials s
        (s, reply 200 (credentials (map to_json (list_credentials w.orders s.tables))))

  -- `if req.Secret != "" { sealed, err = s.vault.Seal(…) }`
  abbrev pub sealed_or_empty : Text → Text
  sealed_or_empty secret =
      if is_empty secret then [] else Vault.seal w.box w.vault w.nonce (w.to_bytes secret)

  -- handleCreateCredential
  unfoldable pub handle_create_credential : Claims → Request → Site → Site × Response
  unfolding lit write_error
  handle_create_credential c r s = read_json (w.decode_credential r.body) s λ req.
      if is_empty req.name || is_empty req.kind
      then (s, write_error 400 (lit "name and kind are required"))
      else unless_failed w put_credential s (
          let (id, t) =
            create_credential w.new_id req.name req.kind req.username (sealed_or_empty req.secret)
              req.extra s.tables in
          (
            audit w c (lit "create_credential") req.name r
                ((lit "kind", word req.kind) ∷ (lit "username", word req.username) ∷ [])
                (record s { tables = t }),
            reply 201 (created id),
          ))

  -- handleDeleteCredential
  unfoldable pub handle_delete_credential : Claims → Request → Site → Site × Response
  unfolding lit
  handle_delete_credential c r s = unless_failed w drop_credential s (
    audit w c (lit "delete_credential") r.path_id r []
        (record s { tables = delete_credential r.path_id s.tables }),
    reply 200 (status (lit "deleted")),
  )

  -- handleListSchedules
  unfoldable pub handle_list_schedules : Request → Site → Site × Response
  handle_list_schedules r s =
      unless_failed w read_schedules s (s, reply 200 (schedules (list_schedules w.orders s.tables)))

  -- handleCreateSchedule
  unfoldable pub handle_create_schedule : Claims → Request → Site → Site × Response
  unfolding lit write_error
  handle_create_schedule c r s = read_json (w.decode_schedule r.body) s λ req.
      if is_empty req.scan_target_id || ltb_ℤ req.interval_secs (pos 60)
      then (s, write_error 400 (lit "scan_target_id and interval_secs (>=60) are required"))
      else unless_failed w put_schedule s (
          let (id, t) =
            create_schedule w.new_id (pos (w.now / nanos)) req.scan_target_id req.interval_secs
              (enabled_or_true req.enabled) s.tables in
          (
            audit w c (lit "create_schedule") req.scan_target_id r
                ((lit "interval_secs", number req.interval_secs) ∷ []) (record s { tables = t }),
            reply 201 (created id),
          ))
