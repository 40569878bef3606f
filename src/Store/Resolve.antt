-- ===== src/Store/Resolve.antt =====
-- internal/store/devices.go: `resolveDevice`. Serial numbers and directory ids have unique indices, so
-- at most one row matches them; a query by another key ends at LIMIT 1, and which of the matching
-- rows that is, is the database's choice.
use motzworks.Prelude.{
  Bool, true, false, ◌||◌, not, List, [], ◌∷◌, Option, none, some, if◌then◌else◌, find_first,
}
use motzworks.Text.{Text, is_empty, text_eq}
use motzworks.Addr.{is_valid}
use motzworks.Model.{Device}
use motzworks.Store.Db.{
  or_blank, mapped_or_blank, Key, by_serial, by_ad_guid, by_mac, by_hostname, by_ip, DeviceRow,
  InterfaceRow, OsRow, Db, select_id, select_scalars, select_os, Server, Tx, ◌>>=◌, ◌>>◌, pure,
  query,
}
use motzworks.Store.Diff.{Existing, no_existing, macs_of}

abbrev pub is_value : Option Text → Text → Bool
is_value none s = false
is_value (some t) s = text_eq t s

abbrev pub keys : List Key
keys = by_serial ∷ by_ad_guid ∷ by_mac ∷ by_hostname ∷ by_ip ∷ []

abbrev pub row_id : Option DeviceRow → Text
row_id none = []
row_id (some r) = r.id

abbrev pub os_scalars : Existing → Option OsRow → Existing
os_scalars ex none = ex
os_scalars ex (some os) = record ex { os_name = or_blank os.name; os_version = or_blank os.version }

abbrev pub row_scalars : (Text → Text) → Option DeviceRow → Existing
row_scalars host none = no_existing
row_scalars host (some r) = record no_existing {
  device_type = r.device_type;
  hostname = or_blank r.hostname;
  primary_ip = mapped_or_blank host r.primary_ip;
  serial = or_blank r.serial;
}

-- The two SELECTs of scalars for one id.
unfoldable pub scalars : (Text → Text) → Text → Db → Existing
scalars host id db =
    os_scalars (row_scalars host (find_first (λ r. text_eq r.id id) db.device))
      (db.children.os_info id)

module _ (sv : Server) where
  unfoldable pub any_mac : List Text → Option Text → Bool
  any_mac [] m = false
  any_mac (mac ∷ macs) none = false
  any_mac (mac ∷ macs) (some m) = sv.mac_eq m mac || any_mac macs (some m)

  unfoldable pub has_mac : List Text → List InterfaceRow → Bool
  unfolding any_mac
  has_mac macs [] = false
  has_mac macs (ifc ∷ ifaces) = any_mac macs ifc.mac || has_mac macs ifaces

  lower_is : Option Text → Text → Bool
  lower_is none s = false
  lower_is (some t) s = text_eq (sv.lower t) (sv.lower s)

  -- attempt.when
  unfoldable pub applies : Key → Device → Bool
  applies by_serial d = not (is_empty d.serial)
  applies by_ad_guid d = not (is_empty d.ad_guid)
  applies by_mac d = elim (macs_of sv d) [ [] ↦ false | m ∷ ms ↦ true ]
  applies by_hostname d = not (is_empty d.hostname)
  applies by_ip d = is_valid d.primary_ip

  -- The WHERE clause of attempt.q.
  unfoldable pub matches : Key → Device → Db → DeviceRow → Bool
  unfolding has_mac lower_is
  matches by_serial d db r = is_value r.serial d.serial
  matches by_ad_guid d db r = is_value r.ad_guid d.ad_guid
  matches by_mac d db r = has_mac (macs_of sv d) (db.children.interfaces r.id)
  matches by_hostname d db r = lower_is r.hostname d.hostname
  matches by_ip d db r = is_value r.primary_ip (sv.print_addr d.primary_ip)

  -- The rows that the query comes by. A row of interface with the MAC stands for its device.
  abbrev pub candidates : Key → Db → List DeviceRow
  candidates by_serial db = db.device
  candidates by_ad_guid db = db.device
  candidates k db = sv.visit k db

  -- queryID: the id of a matching row, or "" for pgx.ErrNoRows.
  unfoldable pub query_id : Key → Device → Tx Text
  query_id k d = query sv select_id (λ db. row_id (find_first (matches k d db) (candidates k db)))

  -- The loop over the attempts. It ends at the first id found; a NULL or "" id is no find.
  unfoldable pub attempt : List Key → Device → Tx Text
  attempt [] d = pure []
  attempt (k ∷ ks) d =
      let next = attempt ks d in
      if applies k d then (do id ← query_id k d; if is_empty id then next else pure id) else next

  unfoldable pub load_existing : Text → Tx Existing
  load_existing id = do query sv select_scalars (λ db. tt); query sv select_os (scalars sv.host id)

  -- resolveDevice
  unfoldable pub resolve_device : Device → Tx (Text × Existing)
  resolve_device d = do
    id ← attempt keys d
    if is_empty id then pure ([], no_existing) else do ex ← load_existing id; pure (id, ex)
