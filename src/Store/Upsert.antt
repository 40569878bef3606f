-- ===== src/Store/Upsert.antt =====
-- internal/store/devices.go: `replaceChildren`, `UpsertDevice` and `CreateRelationship`.
use motzworks.Prelude.{
  Bool, false, ◌&&◌, ◌||◌, List, [], ◌∷◌, ◌++◌, Option, none, some, if◌then◌else◌,
}
use motzworks.Text.{Text, lit, is_empty, text_eq}
use motzworks.Model.{Device, type_text, OsInfo, Interface, Hardware, Software, UserAccount}
use motzworks.Store.Db.{
  null_str, null_int, coalesce, DeviceRow, InterfaceRow, SoftwareRow, UserRow, ChangeEvent,
  Children, Db, begin, insert_device, update_device, delete_children, insert_interface, upsert_os,
  upsert_hardware, insert_software, insert_user, insert_change, commit, insert_relationship, Server,
  Answer, ok, Tx, ◌>>=◌, ◌>>◌, pure, transaction, query, exec, put, null_ip, null_date,
}
use motzworks.Store.Diff.{Existing, diff_device}
use motzworks.Store.Resolve.{resolve_device}

abbrev pub on_children : (Children → Children) → Db → Db
on_children f db = record db { children = f db.children }

module _ (sv : Server) (d : Device) where
  -- INSERT INTO device … RETURNING id
  unfoldable pub new_row : Text → DeviceRow
  new_row id = record {
    id = id;
    device_type = type_text d.device_type;
    hostname = null_str d.hostname;
    primary_ip = null_ip sv d.primary_ip;
    serial = null_str d.serial;
    asset_tag = null_str d.asset_tag;
    ad_guid = null_str d.ad_guid;
    source = null_str d.source;
    first_seen = sv.now;
    last_seen = sv.now;
  }

  -- CASE WHEN $2 <> 'unknown' THEN $2 ELSE device_type END
  unfoldable pub known_type : Text → Text
  unfolding lit
  known_type old =
      if text_eq (type_text d.device_type) (lit "unknown") then old else type_text d.device_type

  -- UPDATE device SET …
  unfoldable pub updated_row : DeviceRow → DeviceRow
  unfolding known_type
  updated_row r = record r {
    device_type = known_type r.device_type;
    hostname = coalesce (null_str d.hostname) r.hostname;
    primary_ip = coalesce (null_ip sv d.primary_ip) r.primary_ip;
    serial = coalesce (null_str d.serial) r.serial;
    asset_tag = coalesce (null_str d.asset_tag) r.asset_tag;
    ad_guid = coalesce (null_str d.ad_guid) r.ad_guid;
    source = coalesce (null_str d.source) r.source;
    last_seen = sv.now;
  }

  -- … WHERE id = $1
  unfoldable pub update_where : Text → List DeviceRow → List DeviceRow
  update_where id [] = []
  update_where id (r ∷ rows) = (if text_eq r.id id then updated_row r else r) ∷ update_where id rows

  -- The INSERT or the UPDATE of UpsertDevice, with the id and the changes.
  unfoldable pub write_device : Text → Existing → Tx (Text × List ChangeEvent)
  write_device [] ex = do
    id ← query sv insert_device sv.new_id
    exec sv insert_device (λ db. record db { device = db.device ++ new_row id ∷ [] })
    pure (id, [])
  write_device (c ∷ id) ex = do
    exec sv update_device (λ db. record db { device = update_where (c ∷ id) db.device })
    pure (c ∷ id, diff_device sv ex d)

  -- DELETE FROM interface, software, user_account
  unfoldable pub delete_rows : Text → Children → Children
  delete_rows id c = record c {
    interfaces = put id [] c.interfaces;
    software = put id [] c.software;
    user_account = put id [] c.user_account;
  }

  unfoldable pub interface_row : Interface → InterfaceRow
  interface_row i = record {
    name = null_str i.name;
    mac = null_str i.mac;
    ip = null_ip sv i.ip;
    speed_mbps = null_int i.speed_mbps;
    vlan = null_int i.vlan;
  }

  unfoldable pub software_row : Software → SoftwareRow
  software_row s = record {
    name = s.name;
    version = null_str s.version;
    vendor = null_str s.vendor;
    install_date = null_date sv s.install_date;
  }

  unfoldable pub user_row : UserAccount → UserRow
  user_row u = record {
    username = u.username;
    full_name = null_str u.full_name;
    last_logon = u.last_logon;
    is_local = u.is_local;
  }

  unfoldable pub insert_interfaces : Text → List Interface → Tx (Unit {0})
  insert_interfaces id [] = pure tt
  insert_interfaces id (i ∷ rest) = do
    exec sv insert_interface (
        on_children (λ c. record c {
          interfaces = put id (c.interfaces id ++ interface_row i ∷ []) c.interfaces;
        }))
    insert_interfaces id rest

  unfoldable pub insert_softwares : Text → List Software → Tx (Unit {0})
  insert_softwares id [] = pure tt
  insert_softwares id (s ∷ rest) = do
    exec sv insert_software (
        on_children
          (λ c. record c { software = put id (c.software id ++ software_row s ∷ []) c.software }))
    insert_softwares id rest

  unfoldable pub insert_users : Text → List UserAccount → Tx (Unit {0})
  insert_users id [] = pure tt
  insert_users id (u ∷ rest) = do
    exec sv insert_user (
        on_children (λ c. record c {
          user_account = put id (c.user_account id ++ user_row u ∷ []) c.user_account;
        }))
    insert_users id rest

  -- INSERT INTO os_info … ON CONFLICT (device_id) DO UPDATE SET … = EXCLUDED.…
  unfoldable pub write_os : Text → Option OsInfo → Tx (Unit {0})
  write_os id none = pure tt
  write_os id (some os) = exec sv upsert_os (
      on_children (λ c. record c {
        os_info =
            put id
              (some (record {
                family = null_str os.family;
                name = null_str os.name;
                version = null_str os.version;
                build = null_str os.build;
                arch = null_str os.arch;
              }))
              c.os_info;
      }))

  -- INSERT INTO hardware … ON CONFLICT (device_id) DO UPDATE SET … = EXCLUDED.…
  unfoldable pub write_hardware : Text → Option Hardware → Tx (Unit {0})
  write_hardware id none = pure tt
  write_hardware id (some h) = exec sv upsert_hardware (
      on_children (λ c. record c {
        hardware =
            put id
              (some (record {
                vendor = null_str h.vendor;
                model = null_str h.model;
                serial = null_str h.serial;
                cpu = null_str h.cpu;
                cpu_cores = null_int h.cpu_cores;
                ram_bytes = null_int h.ram_bytes;
              }))
              c.hardware;
      }))

  -- replaceChildren
  unfoldable pub replace_children : Text → Tx (Unit {0})
  replace_children id = do
    exec sv delete_children (on_children (delete_rows id))
    insert_interfaces id d.interfaces
    write_os id d.os
    write_hardware id d.hardware
    insert_softwares id d.software
    insert_users id d.users

  unfoldable pub insert_changes : Text → Text → List ChangeEvent → Tx (Unit {0})
  insert_changes run_id id [] = pure tt
  insert_changes run_id id (ch ∷ rest) = do
    exec sv insert_change (λ db. record db {
      change_event =
          db.change_event
          ++ record { device_id = id; scan_run_id = null_str run_id; event = ch } ∷ [];
    })
    insert_changes run_id id rest

  -- The body of UpsertDevice, between Begin and the return.
  unfoldable pub upsert_tx : Text → Bool → Tx (Text × List ChangeEvent)
  upsert_tx run_id collected = do
    query sv begin (λ db. tt)
    (found, ex) ← resolve_device sv d
    (id, changes) ← write_device found ex
    if collected then replace_children id else pure tt
    insert_changes run_id id changes
    exec sv commit (λ db. db)
    pure (id, changes)

  -- UpsertDevice
  unfoldable pub upsert_device : Text → Bool → Db → Answer (Text × List ChangeEvent) × Db
  upsert_device run_id collected db = transaction (upsert_tx run_id collected) db

-- CreateRelationship: ON CONFLICT DO NOTHING.
unfoldable pub relation_known : Text → Text → Text → List (Text × Text × Text) → Bool
relation_known p c k [] = false
relation_known p c k ((p', c', k') ∷ rows) =
    text_eq p p' && text_eq c c' && text_eq k k' || relation_known p c k rows

unfoldable pub create_relationship : Server → Text → Text → Text → Db → Answer (Unit {0}) × Db
unfolding relation_known
create_relationship sv parent child kind db =
    if is_empty parent || is_empty child || text_eq parent child
    then (ok tt, db)
    else transaction
        (exec sv insert_relationship (λ t.
          if relation_known parent child kind t.relationship
          then t
          else record t { relationship = t.relationship ++ (parent, child, kind) ∷ [] }))
        db
