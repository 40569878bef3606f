-- ===== src/Store/Db.antt =====
-- The tables behind internal/store/devices.go, the null helpers of null.go, and transactions. The
-- child tables are functions of the device's id. What the database itself computes (a new id,
-- lower(), macaddr equality, dates, netip's text of an address) and whether it answers a statement
-- with an error are parameters, the record Server.
use motzworks.Prelude.{ℕ, Bool, List, [], ◌∷◌, Option, none, some, if◌then◌else◌}
use motzworks.Prelude.Int.{ℤ, pos}
use motzworks.Text.{Text, is_empty, text_eq}
use motzworks.Addr.{Addr, is_valid}

-- nullStr, nullInt and nullInt64
unfoldable pub null_str : Text → Option Text
null_str [] = none
null_str (c ∷ s) = some (c ∷ s)

unfoldable pub null_int : ℤ → Option ℤ
null_int (pos ℕ.zero) = none
null_int n = some n

-- COALESCE(column, '')
abbrev pub or_blank : Option Text → Text
or_blank none = []
or_blank (some s) = s

-- COALESCE(f(column), '')
abbrev pub mapped_or_blank : (Text → Text) → Option Text → Text
mapped_or_blank f none = []
mapped_or_blank f (some s) = f s

-- COALESCE($n, column)
unfoldable pub coalesce {ℓ} : {A : Type ℓ} → Option A → Option A → Option A
coalesce none old = old
coalesce (some a) old = some a

pub record DeviceRow : Type 0 where
  pub id : Text
  pub device_type : Text
  pub hostname : Option Text
  pub primary_ip : Option Text
  pub serial : Option Text
  pub asset_tag : Option Text
  pub ad_guid : Option Text
  pub source : Option Text
  pub first_seen : ℕ
  pub last_seen : ℕ

pub record InterfaceRow : Type 0 where
  pub name : Option Text
  pub mac : Option Text
  pub ip : Option Text
  pub speed_mbps : Option ℤ
  pub vlan : Option ℤ

pub record OsRow : Type 0 where
  pub family : Option Text
  pub name : Option Text
  pub version : Option Text
  pub build : Option Text
  pub arch : Option Text

pub record HardwareRow : Type 0 where
  pub vendor : Option Text
  pub model : Option Text
  pub serial : Option Text
  pub cpu : Option Text
  pub cpu_cores : Option ℤ
  pub ram_bytes : Option ℤ

pub record SoftwareRow : Type 0 where
  pub name : Text
  pub version : Option Text
  pub vendor : Option Text
  pub install_date : Option ℕ

pub record UserRow : Type 0 where
  pub username : Text
  pub full_name : Option Text
  pub last_logon : Option ℕ
  pub is_local : Bool

-- The columns whose changes are recorded.
pub data Field : Type 0 where
  hostname primary_ip serial device_type os_name os_version : Field

pub record ChangeEvent : Type 0 where
  pub field : Field
  pub old : Text
  pub new : Text

pub record ChangeRow : Type 0 where
  pub device_id : Text
  pub scan_run_id : Option Text
  pub event : ChangeEvent

-- The rows that hang under each device.
pub record Children : Type 0 where
  pub interfaces : Text → List InterfaceRow
  pub os_info : Text → Option OsRow
  pub hardware : Text → Option HardwareRow
  pub software : Text → List SoftwareRow
  pub user_account : Text → List UserRow

pub record Db : Type 0 where
  pub device : List DeviceRow
  pub children : Children
  pub change_event : List ChangeRow
  pub relationship : List (Text × Text × Text)

-- The statements of UpsertDevice and CreateRelationship.
pub data Stmt : Type 0 where
  begin select_id select_scalars select_os insert_device update_device delete_children
        insert_interface upsert_os upsert_hardware insert_software insert_user insert_change commit
        insert_relationship :
      Stmt

-- The identity keys of resolveDevice, in the order of its attempts.
pub data Key : Type 0 where
  by_serial by_ad_guid by_mac by_hostname by_ip : Key

-- `host` is the database's text of a stored address; `visit k db` is the order in which the query by
-- the key k comes by the devices, of which LIMIT 1 takes the first that matches.
pub record Server : Type 0 where
  pub fault : Stmt → Option Text
  pub new_id : Db → Text
  pub lower : Text → Text
  pub mac_eq : Text → Text → Bool
  pub print_addr : Addr → Text
  pub parse_mac : Text → Option ℕ
  pub parse_date : Text → Option ℕ
  pub now : ℕ
  pub host : Text → Text
  pub visit : Key → Db → List DeviceRow

pub data Answer {ℓ} (A : Type ℓ) : Type ℓ where
  ok : A → Answer A
  err : Text → Answer A

-- What runs inside one transaction.
abbrev pub Tx {ℓ} : Type ℓ → Type ℓ
Tx A = Db → Answer (A × Db)

abbrev pub continue {ℓ κ} :
    {A : Type ℓ} {B : Type κ} → Answer (A × Db) → (A → Tx B) → Answer (B × Db)
continue (ok (a, db)) f = f a db
continue (err e) f = err e

infixl 5 ◌>>=◌ ◌>>◌
unfoldable pub ◌>>=◌ {ℓ κ} : {A : Type ℓ} {B : Type κ} → Tx A → (A → Tx B) → Tx B
◌>>=◌ m f db = continue (m db) f

abbrev pub ◌>>◌ {ℓ} : {B : Type ℓ} → Tx (Unit {0}) → Tx B → Tx B
m >> k = m >>= λ _. k

abbrev pub pure {ℓ} : {A : Type ℓ} → A → Tx A
pure a db = ok (a, db)

abbrev pub end_with {ℓ} : {A : Type ℓ} → Answer (A × Db) → Db → Answer A × Db
end_with (ok (a, db')) db = (ok a, db')
end_with (err e) db = (err e, db)

-- COMMIT hands over the new tables; after an error the deferred Rollback leaves the old ones.
unfoldable pub transaction {ℓ} : {A : Type ℓ} → Tx A → Db → Answer A × Db
transaction m db = end_with (m db) db

abbrev pub or_fault {ℓ} : {A : Type ℓ} → Option Text → A → Db → Answer (A × Db)
or_fault none a db = ok (a, db)
or_fault (some e) a db = err e

-- A statement that reads, and one that writes.
unfoldable pub query {ℓ} : {A : Type ℓ} → Server → Stmt → (Db → A) → Tx A
query sv s f db = or_fault (sv.fault s) (f db) db

unfoldable pub exec : Server → Stmt → (Db → Db) → Tx (Unit {0})
exec sv s f db = or_fault (sv.fault s) tt (f db)

-- One cell of a child table.
unfoldable pub put {ℓ} : {A : Type ℓ} → Text → A → (Text → A) → Text → A
put id a table k = if text_eq id k then a else table k

-- nullIP
unfoldable pub null_ip : Server → Addr → Option Text
null_ip sv a = if is_valid a then some (sv.print_addr a) else none

-- nullDate
unfoldable pub null_date : Server → Text → Option ℕ
null_date sv s = if is_empty s then none else sv.parse_date s
