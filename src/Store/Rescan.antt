-- ===== src/Store/Rescan.antt =====
-- What a call of UpsertDevice leaves for the next one.
use motzworks.Prelude.{
  ◌≡◌, refl, ap, ◌∙◌, ◌⊎◌, true, false, List, [], ◌∷◌, Option, none, some, arith, find_first,
  Bool-cases, inl, inr,
}
use motzworks.Text.{Text, is_empty, text_eq, text_eq_iff, lit}
use motzworks.Addr.{is_valid}
use motzworks.Model.{Device, DeviceType, type_text, unset, unknown, windows, OsInfo}
use motzworks.Store.Db.{
  null_str, null_ip, or_blank, mapped_or_blank, Key, by_serial, by_ad_guid, by_mac, by_hostname,
  by_ip, coalesce, put, DeviceRow, OsRow, ChangeEvent, Db, Server, Field, hostname, primary_ip,
  serial, device_type, os_name, os_version, Answer, ok,
}
use motzworks.Store.Diff.{Existing, diff_device, add_change, row_changes, os_changes, typed}
use motzworks.Store.Resolve.{
  candidates, keys, applies, matches, row_id, is_value, row_scalars, os_scalars, scalars,
}
use motzworks.Store.Upsert.{new_row, known_type, updated_row, upsert_device}
use motzworks.Store.Runs.{Answers, found_id, snapshot, os_after}
use motzworks.Store.Settled.{NewIds, settled_id, settled_rows, settled_changes, upsert_ok}
use motzworks.Store.Rows.{
  HasIds, has_id, none_of_empty, has_id_of_found, find_appended, find_updated, find_id_updated,
}

add_change_none :
    (ch : List ChangeEvent) (f : Field) (old new : Text)
    → (is_empty new ≡ false → old ≡ new)
    → add_change ch f old new ≡ ch
unfolding add_change
add_change_none ch f old new h = ground (arith, h, text_eq_iff new old)

-- A stored row holds whatever the device reports.
record Holds (sv : Server) (d : Device) (r : DeviceRow) : Type 0 where
  hostname : is_empty d.hostname ≡ false → or_blank r.hostname ≡ d.hostname
  ip :
      is_valid d.primary_ip ≡ true
      → mapped_or_blank sv.host r.primary_ip ≡ sv.print_addr d.primary_ip
  serial : is_empty d.serial ≡ false → or_blank r.serial ≡ d.serial
  device_type : typed d.device_type ≡ true → r.device_type ≡ type_text d.device_type

pub coalesce_str :
    (s : Text) (old : Option Text) → is_empty s ≡ false → or_blank (coalesce (null_str s) old) ≡ s
unfolding coalesce null_str
coalesce_str [] old h = cc
coalesce_str (c ∷ s) old h = refl

pub null_str_back : (s : Text) → or_blank (null_str s) ≡ s
unfolding null_str
null_str_back [] = refl
null_str_back (c ∷ s) = refl

typed_known : (t : DeviceType) → typed t ≡ true → text_eq (type_text t) (lit "unknown") ≡ false
unfolding typed type_text text_eq lit
typed_known unset h = cc
typed_known unknown h = cc
typed_known windows h = refl
typed_known _ h = refl

module _ (sv : Server) (d : Device) where
  -- The database prints the address as Go does.
  abbrev pub IsPrinted : Type 0
  IsPrinted =
      is_valid d.primary_ip ≡ true
      → sv.host (sv.print_addr d.primary_ip) ≡ sv.print_addr d.primary_ip

  updated-Holds : IsPrinted → (r : DeviceRow) → Holds sv d (updated_row sv d r)
  unfolding updated_row known_type null_ip coalesce
  updated-Holds printed r = record {
    hostname = coalesce_str d.hostname r.hostname;
    ip = λ h. ground (arith, printed h);
    serial = coalesce_str d.serial r.serial;
    device_type = λ h. ground (arith, typed_known d.device_type h);
  }

  new-Holds : IsPrinted → (id : Text) → Holds sv d (new_row sv d id)
  unfolding new_row null_ip
  new-Holds printed id = record {
    hostname = λ h. null_str_back d.hostname;
    ip = λ h. ground (arith, printed h);
    serial = λ h. null_str_back d.serial;
    device_type = λ h. refl;
  }

  row_changes_none :
      (r : DeviceRow) (os : Option OsRow)
      → Holds sv d r
      → row_changes sv (os_scalars (row_scalars sv.host (some r)) os) d ≡ []
  unfolding row_changes
  row_changes_none r none h = ground (
    arith,
    add_change_none [] hostname (or_blank r.hostname) d.hostname h.hostname,
    add_change_none [] primary_ip (mapped_or_blank sv.host r.primary_ip)
        (sv.print_addr d.primary_ip),
    add_change_none [] serial (or_blank r.serial) d.serial h.serial,
    add_change_none [] device_type r.device_type (type_text d.device_type),
    h.ip,
    h.device_type,
  )
  row_changes_none r (some os) h = ground (
    arith,
    add_change_none [] hostname (or_blank r.hostname) d.hostname h.hostname,
    add_change_none [] primary_ip (mapped_or_blank sv.host r.primary_ip)
        (sv.print_addr d.primary_ip),
    add_change_none [] serial (or_blank r.serial) d.serial h.serial,
    add_change_none [] device_type r.device_type (type_text d.device_type),
    h.ip,
    h.device_type,
  )

os_changes_none :
    (os : Option OsInfo) (ex : Existing) (table : Text → Option OsRow) (id : Text)
    → os_changes (os_scalars ex (os_after os id table id)) os [] ≡ []
unfolding put
os_changes_none none ex table id = refl
os_changes_none (some os) ex table id = rw ((text_eq_iff id id).1 refl) (
    rw
      (add_change_none [] os_name (or_blank (null_str os.name)) os.name
        (λ h. null_str_back os.name))
      (add_change_none [] os_version (or_blank (null_str os.version)) os.version
        (λ h. null_str_back os.version)))

-- A device finds no change against a row that holds what it reports.
diff_none :
    (sv : Server) (d : Device) (r : DeviceRow) (table : Text → Option OsRow) (id : Text)
    → Holds sv d r
    → diff_device sv (os_scalars (row_scalars sv.host (some r)) (os_after d.os id table id)) d ≡ []
unfolding diff_device
diff_none sv d r table id h =
    rw (row_changes_none sv d r (os_after d.os id table id) h)
      (os_changes_none d.os (row_scalars sv.host (some r)) table id)

module _ (sv : Server) (up : Answers sv) (d : Device) where
  has_id-candidates :
      (k : Key) (db : Db) (id : Text) → has_id (candidates sv k db) id ≡ has_id db.device id
  has_id-candidates by_serial db id = refl
  has_id-candidates by_ad_guid db id = refl
  has_id-candidates k db id = up.visits k db id

  pub found_has_id :
      (ks : List Key) (db : Db)
      → is_empty (found_id sv up d ks db) ≡ false
      → has_id db.device (found_id sv up d ks db) ≡ true
  unfolding found_id
  found_has_id [] db h = cc
  found_has_id (k ∷ ks) db h =
      let p = matches sv k d db in
      ground (
        arith,
        has_id_of_found p (candidates sv k db),
        has_id-candidates k db (row_id (find_first p (candidates sv k db))),
        found_has_id ks db,
      )

  -- What the attempt by serial number says of the id that all attempts find.
  serial_first :
      (ks : List Key) (db : Db)
      → HasIds db.device
      → is_empty d.serial ≡ false
      → let p = matches sv by_serial d db in
        (row_id (find_first p db.device) ≡ found_id sv up d (by_serial ∷ ks) db)
        ⊎ (find_first p db.device ≡ none)
  unfolding found_id applies
  serial_first ks db h e =
      let p = matches sv by_serial d db in
      elim (Bool-cases (is_empty (row_id (find_first p db.device)))) [
        | inl missed ↦ inr (none_of_empty p db.device h missed)
        | inr hit ↦ inl (rw (e, hit))
      ]

is_value_null : (s : Text) → is_empty s ≡ false → is_value (null_str s) s ≡ true
unfolding null_str
is_value_null [] h = cc
is_value_null (c ∷ s) h = (text_eq_iff (c ∷ s) (c ∷ s)).1 refl

is_value_serial :
    (d : Device) (old : Option Text)
    → is_empty d.serial ≡ false
    → is_value (coalesce (null_str d.serial) old) d.serial ≡ true
unfolding coalesce null_str
is_value_serial d old h = same d.serial h
  where
    same : (s : Text) → is_empty s ≡ false → is_value (coalesce (null_str s) old) s ≡ true
    same [] e = cc
    same (c ∷ s) e = (text_eq_iff (c ∷ s) (c ∷ s)).1 refl

module _ (sv : Server) (new_ids : NewIds sv) (d : Device) (key : is_empty d.serial ≡ false)
    (printed : IsPrinted sv d) where
  -- The row that a call settles on, as the next call finds it: by its serial, and by its id.
  record Settles (found : Text) (db : Db) : Type 0 where
    by_key :
        row_id (find_first (matches sv by_serial d db) (settled_rows sv d found db))
        ≡ settled_id sv d found db
    named : is_empty (settled_id sv d found db) ≡ false
    row : DeviceRow
    by_id :
        find_first (λ r. text_eq r.id (settled_id sv d found db)) (settled_rows sv d found db)
        ≡ some row
    holds : Holds sv d row

  settles :
      (found : Text) (db : Db)
      → HasIds db.device
      → (is_empty found ≡ false → has_id db.device found ≡ true)
      → ((row_id (find_first (matches sv by_serial d db) db.device) ≡ found)
          ⊎ (find_first (matches sv by_serial d db) db.device ≡ none))
      → Settles found db
  unfolding matches new_row updated_row
  settles [] db h has m =
      let id = sv.new_id db in
      let p = matches sv by_serial d db in
      let unmatched : find_first p db.device ≡ none = elim m [
        | inl e ↦ none_of_empty p db.device h (rw e refl)
        | inr e ↦ e
      ] in
      record {
        by_key =
            rw (find_appended p db.device (new_row sv d id) unmatched (is_value_null d.serial key));
        named = new_ids.nonempty db;
        row = new_row sv d id;
        by_id =
            find_appended (λ r. text_eq r.id id) db.device (new_row sv d id) (new_ids.unused db)
              ((text_eq_iff id id).1 refl);
        holds = new-Holds sv d printed id;
      }
  settles (c ∷ s) db h has m =
      let id : Text = c ∷ s in
      let p = matches sv by_serial d db in
      let (r, e, i) =
        find_updated p sv d (λ r. is_value_serial d r.serial key) id db.device (has refl) m in
      let (r', e') = find_id_updated sv d id db.device (has refl) in
      record {
        by_key = rw e i;
        named = refl;
        row = updated_row sv d r';
        by_id = e';
        holds = updated-Holds sv d printed r';
      }

module _ (sv : Server) (up : Answers sv) (new_ids : NewIds sv) (d : Device) where
  found_again :
      (db : Db) (id : Text)
      → row_id (find_first (matches sv by_serial d db) db.device) ≡ id
      → is_empty id ≡ false
      → is_empty d.serial ≡ false
      → found_id sv up d keys db ≡ id
  unfolding found_id applies
  found_again db id e named key = rw (key, e, named)

  same_id :
      (db : Db) (id : Text)
      → is_empty id ≡ false
      → diff_device sv (scalars sv.host id db) d ≡ []
      → ◌≡◌ {A = Answer (Text × List ChangeEvent)}
          (ok (settled_id sv d id db, settled_changes sv d id (snapshot sv up d id db)))
          (ok (id, []))
  same_id db [] h e = cc
  same_id db (c ∷ s) h e = ap (λ l. ok (c ∷ s, l)) e

  -- If the database answers every statement from the devices that it holds, makes up ids that are
  -- new and not empty, holds no device with an empty id, and prints the device's address, if there
  -- is one, as Go does, then a device with a serial number that is collected twice in a row with
  -- the same facts is found the second time under the id that the first call returned, and the
  -- second call reports no change.
  pub upsert_device-rescan :
      (db : Db) (run run' : Text)
      → HasIds db.device
      → is_empty d.serial ≡ false
      → IsPrinted sv d
      → let first = upsert_device sv d run true db in
        (id : Text) × (changes : List ChangeEvent) × (first.0 ≡ ok (id, changes))
        × ((upsert_device sv d run' true first.1).0 ≡ ok (id, []))
  unfolding scalars matches
  upsert_device-rescan db run run' h key printed =
      let found = found_id sv up d keys db in
      let rest = by_ad_guid ∷ by_mac ∷ by_hostname ∷ by_ip ∷ [] in
      let s =
        settles sv new_ids d key printed found db h (found_has_id sv up d keys db)
          (serial_first sv up d rest db h key) in
      let id = settled_id sv d found db in
      let one = upsert_ok sv up d run db in
      let db1 = one.0 in
      let (e, g, o) = one.1 in
      let two = upsert_ok sv up d run' db1 in
      let again : found_id sv up d keys db1 ≡ id = found_again db1 id (rw g s.by_key) s.named key in
      let quiet : diff_device sv (scalars sv.host id db1) d ≡ [] =
        rw (g, s.by_id, ap (λ c. c.os_info) o)
          (diff_none sv d s.row db.children.os_info id s.holds) in
      (
        id,
        settled_changes sv d found (snapshot sv up d found db),
        ap (λ r. r.0) e,
        rw e (ap (λ r. r.0) two.1.0 ∙ rw again (same_id db1 id s.named quiet)),
      )
