-- ===== src/Api/Read.antt =====
-- internal/api/handlers_read.go: what any account may read.
use motzworks.Prelude.{ℕ, List, Option, none, some, if◌then◌else◌}
use motzworks.Prelude.Int.{pos}
use motzworks.Text.{Text, lit, is_empty}
use motzworks.Store.Queries.{DeviceListItem, DeviceFilter}
use motzworks.Store.Queries.Devices.{DeviceDetail, list_devices, get_device}
use motzworks.Store.Queries.Lists.{
  rollup_query, with_software_query, changes_query, scans_query, scan_events_query,
}
use motzworks.Api.Site.{
  Request, Response, World, page, device_detail, csv, document, scan_with_events, reply,
  write_error, server_error, query_int,
}

-- The documents of the rows, or a 500.
abbrev pub reply_or_500 : Option Text → Response
reply_or_500 none = server_error
reply_or_500 (some d) = reply 200 (document d)

module _ (w : World) where
  -- handleStats
  unfoldable pub handle_stats : Request → Response
  handle_stats r = reply_or_500 w.stats

  abbrev page_of : DeviceFilter → Option (List DeviceListItem × ℕ) → Response
  page_of f none = server_error
  page_of f (some (items, total)) = reply 200 (page items total f.limit f.offset)

  -- handleDevices
  unfoldable pub handle_devices : Request → Response
  unfolding lit
  handle_devices r =
      let f : DeviceFilter = record {
        query = r.query (lit "q");
        type = r.query (lit "type");
        limit = query_int r (lit "limit") (pos 50);
        offset = query_int r (lit "offset") (pos 0);
      } in
      page_of f (list_devices w.db f)

  abbrev device_of : Option (Option DeviceDetail) → Response
  device_of none = server_error
  device_of (some none) = write_error 404 (lit "device not found")
  device_of (some (some d)) = reply 200 (device_detail d)

  -- handleDevice
  unfoldable pub handle_device : Request → Response
  unfolding lit
  handle_device r = device_of (get_device w.db r.path_id)

  abbrev csv_of : Option (List DeviceListItem × ℕ) → Response
  csv_of none = server_error
  csv_of (some (items, total)) = reply 200 (csv items)

  -- handleDevicesCSV
  unfoldable pub handle_devices_csv : Request → Response
  unfolding lit
  handle_devices_csv r =
      let f : DeviceFilter = record {
        query = r.query (lit "q");
        type = r.query (lit "type");
        limit = pos 500;
        offset = pos 0;
      } in
      csv_of (list_devices w.db f)

  -- handleSoftware
  unfoldable pub handle_software : Request → Response
  unfolding lit
  handle_software r = reply_or_500 (
      w.answer (
        rollup_query (r.query (lit "q")) (query_int r (lit "limit") (pos 200))
          (query_int r (lit "offset") (pos 0)) (r.query (lit "sort"))))

  -- handleSoftwareDevices
  unfoldable pub handle_software_devices : Request → Response
  unfolding lit
  handle_software_devices r =
      if is_empty (r.query (lit "name"))
      then write_error 400 (lit "name is required")
      else reply_or_500 (
          w.answer (
            with_software_query (r.query (lit "name")) (r.query (lit "version"))
              (query_int r (lit "limit") (pos 500))))

  -- handleChanges
  unfoldable pub handle_changes : Request → Response
  unfolding lit
  handle_changes r =
      reply_or_500
        (w.answer (changes_query (r.query (lit "device_id")) (query_int r (lit "limit") (pos 100))))

  -- handleScans
  unfoldable pub handle_scans : Request → Response
  unfolding lit
  handle_scans r = reply_or_500 (w.answer (scans_query (query_int r (lit "limit") (pos 50))))

  abbrev with_events : Text → Option Text → Response
  with_events run none = server_error
  with_events run (some events) = reply 200 (scan_with_events run events)

  abbrev scan_of : Request → Option (Option (Text × Text)) → Response
  scan_of r none = server_error
  scan_of r (some none) = write_error 404 (lit "scan not found")
  scan_of r (some (some (id, run))) =
      with_events run (w.answer (scan_events_query id (query_int r (lit "limit") (pos 1000))))

  -- handleScanDetail
  unfoldable pub handle_scan_detail : Request → Response
  unfolding lit
  handle_scan_detail r = scan_of r (w.scan_run r.path_id)
