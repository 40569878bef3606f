-- ===== src/Store/Queries/Lists.antt =====
-- internal/store/queries.go: SoftwareRollup, DevicesWithSoftware, ListChanges, ListScans and
-- ListScanEvents, as the query that each sends.
use motzworks.Prelude.{List, [], ◌∷◌, ◌++◌, if◌then◌else◌}
use motzworks.Prelude.Int.{ℤ, pos, negsuc}
use motzworks.Text.{Text, lit, text_eq, trim_space}
use motzworks.Store.Accounts.{page_limit}
use motzworks.Store.Queries.{Arg, text, number, Query, next, like}

-- `if offset < 0 { offset = 0 }`
abbrev pub not_negative : ℤ → ℤ
not_negative (pos n) = pos n
not_negative (negsuc n) = pos 0

abbrev pub rollup_where : Text → Text × List Arg
rollup_where [] = (lit "1=1", [])
rollup_where (c ∷ q) = let (p, args) = next (like (c ∷ q)) [] in (lit "name ILIKE " ++ p, args)

unfoldable pub rollup_order : Text → Text
unfolding lit
rollup_order sort =
    if text_eq sort (lit "name")
    then lit "lower(name), name, version"
    else lit "device_count DESC, lower(name), name, version"

-- SoftwareRollup
unfoldable pub rollup_query : Text → ℤ → ℤ → Text → Query
unfolding lit
rollup_query query limit offset sort =
    let (where_text, args) = rollup_where (trim_space query) in
    let (lim, args1) = next (number (pos (page_limit 200 1000 limit))) args in
    let (off, args2) = next (number (not_negative offset)) args1 in
    record {
      sql =
          lit
            "SELECT name, COALESCE(version,''), count(DISTINCT device_id) AS device_count FROM software WHERE "
          ++ (where_text
              ++ (lit " GROUP BY name, version ORDER BY "
                  ++ (rollup_order sort ++ (lit " LIMIT " ++ (lim ++ (lit " OFFSET " ++ off))))));
      args = args2;
    }

-- DevicesWithSoftware
unfoldable pub with_software_query : Text → Text → ℤ → Query
unfolding lit
with_software_query name version limit = record {
  sql =
      lit
        "SELECT DISTINCT d.id, d.device_type, COALESCE(d.hostname,''), COALESCE(host(d.primary_ip),''), COALESCE(o.name,''), COALESCE(d.source,''), d.last_seen FROM software sw JOIN device d ON d.id = sw.device_id LEFT JOIN os_info o ON o.device_id = d.id WHERE sw.name = $1 AND COALESCE(sw.version,'') = $2 ORDER BY d.last_seen DESC LIMIT $3";
  args = text name ∷ text version ∷ number (pos (page_limit 500 2000 limit)) ∷ [];
}

abbrev pub changes_where : Text → Text × List Arg
changes_where [] = (lit "1=1", [])
changes_where (c ∷ id) =
    let (p, args) = next (text (c ∷ id)) [] in (lit "c.device_id = " ++ p, args)

-- ListChanges
unfoldable pub changes_query : Text → ℤ → Query
unfolding lit
changes_query device_id limit =
    let (where_text, args) = changes_where device_id in
    let (lim, args1) = next (number (pos (page_limit 100 500 limit))) args in
    record {
      sql =
          lit
            "SELECT c.device_id, COALESCE(d.hostname, host(d.primary_ip), ''), c.field, COALESCE(c.old_value,''), COALESCE(c.new_value,''), c.ts FROM change_event c JOIN device d ON d.id = c.device_id WHERE "
          ++ (where_text ++ (lit " ORDER BY c.ts DESC LIMIT " ++ lim));
      args = args1;
    }

-- ListScans
unfoldable pub scans_query : ℤ → Query
unfolding lit
scans_query limit = record {
  sql =
      lit
        "SELECT id, started_at, finished_at, status, targets, discovered, hosts_found, COALESCE(error,'') FROM scan_run ORDER BY started_at DESC LIMIT $1";
  args = number (pos (page_limit 50 200 limit)) ∷ [];
}

-- ListScanEvents
unfoldable pub scan_events_query : Text → ℤ → Query
unfolding lit
scan_events_query run_id limit = record {
  sql =
      lit
        "SELECT ts, addr, COALESCE(device_class,''), COALESCE(collector,''), status, changes, COALESCE(error,'') FROM scan_event WHERE scan_run_id = $1 ORDER BY ts DESC LIMIT $2";
  args = text run_id ∷ number (pos (page_limit 1000 5000 limit)) ∷ [];
}
