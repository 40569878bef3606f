-- ===== src/Store/Queries/Readback.antt =====
-- What GetDevice of internal/store/queries.go shows of a device that UpsertDevice of
-- internal/store/devices.go has stored.
use mathlib.Core.List.{Perm}
use mathlib.Core.List.Perm
use motzworks.Prelude.{
  ◌≡◌, refl, ap, ◌∙◌, subst, false, ◌⊎◌, inl, inr, true, List, [], ◌∷◌, map, Option, none, some,
  find_first, Bool-cases,
}
use motzworks.Prelude.Int.{pos}
use motzworks.Text.{Text, is_empty, text_eq, text_eq_iff}
use motzworks.Model.{Device}
use motzworks.Store.Db.{or_blank, DeviceRow, ChangeEvent, Db, Server, ok}
use motzworks.Store.Resolve.{keys}
use motzworks.Store.Upsert.{
  interface_row, software_row, user_row, new_row, updated_row, upsert_device,
}
use motzworks.Store.Runs.{Answers, found_id, snapshot}
use motzworks.Store.Stored.{children_after, put_self}
use motzworks.Store.Settled.{NewIds, settled_id, settled_rows, settled_changes, upsert_ok}
use motzworks.Store.Rows.{has_id, find_appended, find_id_updated}
use motzworks.Store.Rescan.{found_has_id, null_str_back, coalesce_str}
use motzworks.Store.Queries.Devices.{DeviceDetail, OsDto, Database, with_os_name, get_device}
use motzworks.Store.Queries.{DeviceListItem}
use motzworks.Store.Queries.Detail.{get_device_iff}
use motzworks.Store.Queries.Tables.{
  View, ViewLaws, iface_dto, software_dto, user_dto, os_dto, hardware_dto, device_interfaces,
  device_software, device_users, device_columns, over_tables,
}
use motzworks.Store.Queries.Shown.{
  shown_software, shown_user, shown_os, shown_hardware, shown_interface, reported_or, mapped,
  map-map, iface_dto-row, software_dto-row, user_dto-row, optional-found, os_read, hardware_read,
  found_passes,
}

-- What is shown of a device of this id, after a scan of `d` that met the tables `before`.
pub record IsShown (sv : Server) (v : View) (d : Device) (before : Db) (id : Text)
    (x : DeviceDetail) : Type 0 where
  pub interfaces : Perm x.interfaces (map (shown_interface sv v) d.interfaces)
  pub software : Perm x.software (map shown_software d.software)
  pub users : Perm x.users (map shown_user d.users)
  pub os : x.os ≡ reported_or (mapped shown_os d.os) (mapped os_dto (before.children.os_info id))
  pub hardware :
      x.hardware
      ≡ reported_or
          (mapped shown_hardware d.hardware)
          (mapped hardware_dto (before.children.hardware id))
  pub same_id : x.item.id ≡ id
  pub hostname : (is_empty d.hostname ≡ true) ⊎ (x.item.hostname ≡ d.hostname)
  pub serial : (is_empty d.serial ≡ true) ⊎ (x.serial ≡ d.serial)
  pub last_seen : x.item.last_seen ≡ pos sv.now

-- The row that the scan leaves.
record IsRow (sv : Server) (d : Device) (rows : List DeviceRow) (id : Text) (r : DeviceRow)
    : Type 0 where
  by_id : find_first (λ x. text_eq x.id id) rows ≡ some r
  hostname : (is_empty d.hostname ≡ true) ⊎ (or_blank r.hostname ≡ d.hostname)
  serial : (is_empty d.serial ≡ true) ⊎ (or_blank r.serial ≡ d.serial)
  last_seen : r.last_seen ≡ sv.now

module _ (sv : Server) (new_ids : NewIds sv) (d : Device) where
  settled-IsRow :
      (found : Text) (db : Db)
      → (is_empty found ≡ false → has_id db.device found ≡ true)
      → (r : DeviceRow) × IsRow sv d (settled_rows sv d found db) (settled_id sv d found db) r
  unfolding new_row updated_row
  settled-IsRow [] db has = (
    new_row sv d (sv.new_id db),
    record {
      by_id =
          find_appended (λ x. text_eq x.id (sv.new_id db)) db.device (new_row sv d (sv.new_id db))
            (new_ids.unused db) ((text_eq_iff (sv.new_id db) (sv.new_id db)).1 refl);
      hostname = inr (null_str_back d.hostname);
      serial = inr (null_str_back d.serial);
      last_seen = refl;
    },
  )
  settled-IsRow (c ∷ s) db has =
      let (r, e) = find_id_updated sv d (c ∷ s) db.device (has refl) in
      (
        updated_row sv d r,
        record {
          by_id = e;
          hostname = elim (Bool-cases (is_empty d.hostname)) [
            | inl blank ↦ inl blank
            | inr full ↦ inr (coalesce_str d.hostname r.hostname full)
          ];
          serial = elim (Bool-cases (is_empty d.serial)) [
            | inl blank ↦ inl blank
            | inr full ↦ inr (coalesce_str d.serial r.serial full)
          ];
          last_seen = refl;
        },
      )

module _ (v : View) (laws : ViewLaws v) (other : Database) (sv : Server) (up : Answers sv)
    (new_ids : NewIds sv) (d : Device) where
  -- What GetDevice assembles of these tables.
  abbrev assembled : Text → Db → DeviceRow → DeviceDetail
  assembled id db r =
      let os = mapped os_dto (db.children.os_info id) in
      let columns = device_columns v r in
      record {
        item = with_os_name os columns.item;
        serial = columns.serial;
        first_seen = columns.first_seen;
        os = os;
        hardware = mapped hardware_dto (db.children.hardware id);
        interfaces = device_interfaces v id db;
        software = device_software v id db;
        users = device_users v id db;
      }

  get_device-assembled :
      (id : Text) (db : Db) (r : DeviceRow)
      → find_first (λ x. text_eq x.id id) db.device ≡ some r
      → get_device (over_tables v other db) id ≡ some (some (assembled id db r))
  unfolding over_tables
  get_device-assembled id db r e =
      (get_device_iff (over_tables v other db) id (assembled id db r)).1 (
        device_columns v r,
        record {
          has_row = rw e;
          has_os = optional-found os_dto (db.children.os_info id);
          has_hardware = optional-found hardware_dto (db.children.hardware id);
          has_interfaces = refl;
          has_software = refl;
          has_users = refl;
          has_item = refl;
          has_serial = refl;
          has_first_seen = refl;
        },
      )

  with_os_name_keeps :
      (os : Option OsDto) (i : DeviceListItem)
      → ((with_os_name os i).id ≡ i.id)
        × ((with_os_name os i).hostname ≡ i.hostname)
        × ((with_os_name os i).last_seen ≡ i.last_seen)
  with_os_name_keeps none i = (refl, refl, refl)
  with_os_name_keeps (some os) i = (refl, refl, refl)

  assembled-IsShown :
      (before db : Db) (id : Text) (r : DeviceRow)
      → db.children ≡ children_after sv d id before.children
      → IsRow sv d db.device id r
      → IsShown sv v d before id (assembled id db r)
  unfolding device_interfaces device_software device_users
  assembled-IsShown before db id r o row =
      let os = mapped os_dto (db.children.os_info id) in
      let (same_id, same_name, same_time) = with_os_name_keeps os (device_columns v r).item in
      record {
        interfaces = rw (ap (λ c. c.interfaces id) o ∙ put_self id _ before.children.interfaces) (
            subst (Perm (map (iface_dto v) (v.by_name (map (interface_row sv d) d.interfaces))))
              (map-map (interface_row sv d) (iface_dto v) (shown_interface sv v)
                (iface_dto-row sv v d) d.interfaces)
              (Perm.map (iface_dto v) (laws.by_name_law (map (interface_row sv d) d.interfaces))));
        software = rw (ap (λ c. c.software id) o ∙ put_self id _ before.children.software) (
            subst (Perm (map software_dto (v.by_lower_name (map (software_row sv d) d.software))))
              (map-map (software_row sv d) software_dto shown_software (software_dto-row sv v d)
                d.software)
              (Perm.map software_dto
                (laws.by_lower_name_law (map (software_row sv d) d.software))));
        users = rw (ap (λ c. c.user_account id) o ∙ put_self id _ before.children.user_account) (
            subst (Perm (map user_dto (v.by_username (map (user_row sv d) d.users))))
              (map-map (user_row sv d) user_dto shown_user (user_dto-row sv v d) d.users)
              (Perm.map user_dto (laws.by_username_law (map (user_row sv d) d.users))));
        os = ap (λ c. mapped os_dto (c.os_info id)) o ∙ os_read d.os id before.children.os_info;
        hardware =
            ap (λ c. mapped hardware_dto (c.hardware id)) o
            ∙ hardware_read d.hardware id before.children.hardware;
        same_id =
            same_id
            ∙ (text_eq_iff r.id id).0 (found_passes (λ x. text_eq x.id id) db.device r row.by_id);
        hostname = elim row.hostname [ inl blank ↦ inl blank | inr e ↦ inr (same_name ∙ e) ];
        serial = row.serial;
        last_seen = same_time ∙ ap (λ n. pos n) row.last_seen;
      }

  -- If the database answers every statement from the devices that it holds, makes up ids that are
  -- new and not empty, and ORDER BY only reorders, then GetDevice, over the tables that a scan of
  -- a device leaves, gives a device under the id that the scan returned: with just the interfaces,
  -- software and users that were scanned, each as often and in some order; with the system and the
  -- hardware that were scanned, or the earlier ones where none was; with the name and the serial
  -- number that were scanned, if they are not empty; and seen at the time of the scan.
  pub get_device-upsert_device :
      (run : Text) (db : Db)
      → (id : Text) × (changes : List ChangeEvent) × (x : DeviceDetail) × (let r =
            upsert_device sv d run true db in
          (r.0 ≡ ok (id, changes)) × (get_device (over_tables v other r.1) id ≡ some (some x)))
        × IsShown sv v d db id x
  get_device-upsert_device run db =
      let found = found_id sv up d keys db in
      let id = settled_id sv d found db in
      let one = upsert_ok sv up d run db in
      let db1 = one.0 in
      let (e, g, o) = one.1 in
      let (r, row) = settled-IsRow sv new_ids d found db (found_has_id sv up d keys db) in
      let row1 : IsRow sv d db1.device id r = rw g row in
      (
        id,
        settled_changes sv d found (snapshot sv up d found db),
        assembled id db1 r,
        (ap (λ r. r.0) e, rw e (get_device-assembled id db1 r row1.by_id)),
        assembled-IsShown db db1 id r o row1,
      )
