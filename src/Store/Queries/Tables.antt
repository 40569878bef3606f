-- ===== src/Store/Queries/Tables.antt =====
-- internal/store/queries.go: what the queries of GetDevice select from the tables. The text of a MAC
-- address and of an inet value is the database's, and so is the order of ORDER BY.
use motzworks.Prelude.{ℕ, List, [], map, Option, none, some, find_first}
use motzworks.Prelude.Int.{ℤ, pos}
use mathlib.Core.List.{Perm}
use motzworks.Text.{Text, text_eq}
use motzworks.Store.Db.{
  or_blank, mapped_or_blank, InterfaceRow, OsRow, HardwareRow, SoftwareRow, UserRow, Db,
}
use motzworks.Store.Db as Db
use motzworks.Store.Queries.Devices.{
  OsDto, HardwareDto, IfaceDto, SoftwareDto, UserDto, DeviceRow, Database, Row, row, no_rows,
}

pub record View : Type 0 where
  pub mac_text : Text → Text
  pub host : Text → Text
  pub by_name : List InterfaceRow → List InterfaceRow
  pub by_lower_name : List SoftwareRow → List SoftwareRow
  pub by_username : List UserRow → List UserRow

-- ORDER BY gives the same rows.
pub record ViewLaws (v : View) : Type 0 where
  pub by_name_law : (rows : List InterfaceRow) → Perm (v.by_name rows) rows
  pub by_lower_name_law : (rows : List SoftwareRow) → Perm (v.by_lower_name rows) rows
  pub by_username_law : (rows : List UserRow) → Perm (v.by_username rows) rows

-- COALESCE(column, 0)
abbrev pub or_zero : Option ℤ → ℤ
or_zero none = pos 0
or_zero (some n) = n

-- A column that may be NULL, as *time.Time.
abbrev pub instant : Option ℕ → Option ℤ
instant none = none
instant (some n) = some (pos n)

abbrev pub found {ℓ} : {A : Type ℓ} {B : Type 0} → (A → B) → Option A → Row B
found f none = no_rows
found f (some a) = row (f a)

abbrev pub os_dto : OsRow → OsDto
os_dto r = record {
  family = or_blank r.family;
  name = or_blank r.name;
  version = or_blank r.version;
  build = or_blank r.build;
  arch = or_blank r.arch;
}

abbrev pub hardware_dto : HardwareRow → HardwareDto
hardware_dto r = record {
  vendor = or_blank r.vendor;
  model = or_blank r.model;
  serial = or_blank r.serial;
  cpu = or_blank r.cpu;
  cpu_cores = or_zero r.cpu_cores;
  ram_bytes = or_zero r.ram_bytes;
}

abbrev pub software_dto : SoftwareRow → SoftwareDto
software_dto r = record { name = r.name; version = or_blank r.version; vendor = or_blank r.vendor }

abbrev pub user_dto : UserRow → UserDto
user_dto r = record {
  username = r.username;
  full_name = or_blank r.full_name;
  last_logon = instant r.last_logon;
  is_local = r.is_local;
}

module _ (v : View) where
  abbrev pub iface_dto : InterfaceRow → IfaceDto
  iface_dto r = record {
    name = or_blank r.name;
    mac = mapped_or_blank v.mac_text r.mac;
    ip = mapped_or_blank v.host r.ip;
    speed_mbps = or_zero r.speed_mbps;
  }

  -- The item's system is not among the columns.
  abbrev pub device_columns : Db.DeviceRow → DeviceRow
  device_columns r = record {
    item = record {
      id = r.id;
      type = r.device_type;
      hostname = or_blank r.hostname;
      primary_ip = mapped_or_blank v.host r.primary_ip;
      os_name = [];
      source = or_blank r.source;
      last_seen = pos r.last_seen;
    };
    first_seen = pos r.first_seen;
    serial = or_blank r.serial;
  }

  -- deviceInterfaces, deviceSoftware and deviceUsers
  unfoldable pub device_interfaces : Text → Db → List IfaceDto
  device_interfaces id db = map iface_dto (v.by_name (db.children.interfaces id))

  unfoldable pub device_software : Text → Db → List SoftwareDto
  device_software id db = map software_dto (v.by_lower_name (db.children.software id))

  unfoldable pub device_users : Text → Db → List UserDto
  device_users id db = map user_dto (v.by_username (db.children.user_account id))

  -- A database that answers each query of GetDevice from these tables, and the others by `other`.
  unfoldable pub over_tables : Database → Db → Database
  over_tables other db = record other {
    device_row = λ id. found device_columns (find_first (λ r. text_eq r.id id) db.device);
    os_row = λ id. found os_dto (db.children.os_info id);
    hardware_row = λ id. found hardware_dto (db.children.hardware id);
    interface_rows = λ id. some (device_interfaces id db);
    software_rows = λ id. some (device_software id db);
    user_rows = λ id. some (device_users id db);
  }
