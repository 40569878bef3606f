-- ===== src/Store/Queries/Devices.antt =====
-- internal/store/queries.go: ListDevices and GetDevice.
use motzworks.Prelude.{ℕ, Bool, List, [], ◌++◌, Option, none, some}
use motzworks.Prelude.Int.{ℤ, pos}
use motzworks.Text.{Text, lit}
use motzworks.Store.Accounts.{page_limit}
use motzworks.Store.Queries.{DeviceListItem, DeviceFilter, number, Query, next, build_device_where}

-- The count of ListDevices.
unfoldable pub count_query : DeviceFilter → Query
unfolding lit
count_query f =
    let (where_text, args) = build_device_where f [] in
    record { sql = lit "SELECT count(*) FROM device d WHERE " ++ where_text; args = args }

-- The page of ListDevices.
unfoldable pub page_query : DeviceFilter → Query
unfolding lit
page_query f =
    let (where_text, args) = build_device_where f [] in
    let (limit, args1) = next (number (pos (page_limit 50 500 f.limit))) args in
    let (offset, args2) = next (number f.offset) args1 in
    record {
      sql =
          lit
            "SELECT d.id, d.device_type, COALESCE(d.hostname,''), COALESCE(host(d.primary_ip),''), COALESCE(o.name,''), COALESCE(d.source,''), d.last_seen FROM device d LEFT JOIN os_info o ON o.device_id = d.id WHERE "
          ++ (where_text
              ++ (lit " ORDER BY d.last_seen DESC LIMIT "
                  ++ (limit ++ (lit " OFFSET " ++ offset))));
      args = args2;
    }

pub record OsDto : Type 0 where
  pub family : Text
  pub name : Text
  pub version : Text
  pub build : Text
  pub arch : Text

pub record HardwareDto : Type 0 where
  pub vendor : Text
  pub model : Text
  pub serial : Text
  pub cpu : Text
  pub cpu_cores : ℤ
  pub ram_bytes : ℤ

pub record IfaceDto : Type 0 where
  pub name : Text
  pub mac : Text
  pub ip : Text
  pub speed_mbps : ℤ

pub record SoftwareDto : Type 0 where
  pub name : Text
  pub version : Text
  pub vendor : Text

pub record UserDto : Type 0 where
  pub username : Text
  pub full_name : Text
  pub last_logon : Option ℤ
  pub is_local : Bool

-- The columns of the first query of GetDevice.
pub record DeviceRow : Type 0 where
  pub item : DeviceListItem
  pub first_seen : ℤ
  pub serial : Text

pub record DeviceDetail : Type 0 where
  pub item : DeviceListItem
  pub serial : Text
  pub first_seen : ℤ
  pub os : Option OsDto
  pub hardware : Option HardwareDto
  pub interfaces : List IfaceDto
  pub software : List SoftwareDto
  pub users : List UserDto

-- QueryRow with Scan: a row, pgx.ErrNoRows, or another error.
pub data Row (A : Type 0) : Type 0 where
  row : A → Row A
  no_rows failed : Row A

-- How the database answers; a list of rows is `none` if Query, Scan or Err fails.
pub record Database : Type 0 where
  pub count : Query → Row ℕ
  pub list_items : Query → Option (List DeviceListItem)
  pub device_row : Text → Row DeviceRow
  pub os_row : Text → Row OsDto
  pub hardware_row : Text → Row HardwareDto
  pub interface_rows : Text → Option (List IfaceDto)
  pub software_rows : Text → Option (List SoftwareDto)
  pub user_rows : Text → Option (List UserDto)

abbrev pub and_then {ℓ κ} : {A : Type ℓ} {B : Type κ} → Option A → (A → Option B) → Option B
and_then none f = none
and_then (some a) f = f a

-- An optional row: no row leaves the field nil, another error ends GetDevice.
abbrev pub optional : {A : Type 0} → Row A → Option (Option A)
optional (row a) = some (some a)
optional no_rows = some none
optional failed = none

-- `d.OSName = os.Name`; without a row the name stays empty, whatever the item carries.
abbrev pub with_os_name : Option OsDto → DeviceListItem → DeviceListItem
with_os_name none i = record i { os_name = [] }
with_os_name (some os) i = record i { os_name = os.name }

module _ (db : Database) where
  abbrev listed : DeviceFilter → Row ℕ → Option (List DeviceListItem × ℕ)
  listed f (row total) = and_then (db.list_items (page_query f)) λ items. some (items, total)
  listed f no_rows = none
  listed f failed = none

  -- ListDevices
  unfoldable pub list_devices : DeviceFilter → Option (List DeviceListItem × ℕ)
  list_devices f = listed f (db.count (count_query f))

  abbrev pub detail : Text → Row DeviceRow → Option (Option DeviceDetail)
  detail id failed = none
  detail id no_rows = some none
  detail id (row d) = and_then (optional (db.os_row id)) λ os.
      and_then (optional (db.hardware_row id)) λ hw. and_then (db.interface_rows id) λ interfaces.
        and_then (db.software_rows id) λ software. and_then (db.user_rows id) λ users. some (
          some (record {
            item = with_os_name os d.item;
            serial = d.serial;
            first_seen = d.first_seen;
            os = os;
            hardware = hw;
            interfaces = interfaces;
            software = software;
            users = users;
          }))

  -- GetDevice: `none` is an error, `some none` is (nil, nil).
  unfoldable pub get_device : Text → Option (Option DeviceDetail)
  get_device id = detail id (db.device_row id)
