-- ===== src/Store/Diff.antt =====
-- internal/store/devices.go: the stored scalars (`existing`), `diffDevice`, `macsOf`,
-- `isLocallyAdministered`.
use motzworks.Prelude.{
  ℕ, ◌/◌, ◌%◌, Bool, true, false, ◌&&◌, not, List, [], ◌∷◌, ◌++◌, Option, none, some, if◌then◌else◌,
  nat_Eq, nat_eq,
}
use motzworks.Text.{Text, is_empty, text_eq}
use motzworks.Addr.{is_valid}
use motzworks.Model.{Device, DeviceType, type_text, unset, unknown, OsInfo, Interface}
use motzworks.Store.Db.{
  Server, Field, hostname, primary_ip, serial, device_type, os_name, os_version, ChangeEvent,
}

pub record Existing : Type 0 where
  pub device_type : Text
  pub hostname : Text
  pub primary_ip : Text
  pub serial : Text
  pub os_name : Text
  pub os_version : Text

abbrev pub no_existing : Existing
no_existing = record {
  device_type = [];
  hostname = [];
  primary_ip = [];
  serial = [];
  os_name = [];
  os_version = [];
}

-- The closure `add`.
unfoldable pub add_change : List ChangeEvent → Field → Text → Text → List ChangeEvent
add_change ch f old new =
    if not (is_empty new) && not (text_eq new old)
    then ch ++ record { field = f; old = old; new = new } ∷ []
    else ch

-- d.Type != "" && d.Type != model.TypeUnknown
unfoldable pub typed : DeviceType → Bool
typed unset = false
typed unknown = false
typed _ = true

abbrev pub os_changes : Existing → Option OsInfo → List ChangeEvent → List ChangeEvent
os_changes ex none ch = ch
os_changes ex (some os) ch =
    add_change (add_change ch os_name ex.os_name os.name) os_version ex.os_version os.version

-- diffDevice up to its last `if`: the columns of the device's row.
unfoldable pub row_changes : Server → Existing → Device → List ChangeEvent
unfolding typed
row_changes sv ex d =
    let c1 = add_change [] hostname ex.hostname d.hostname in
    let c2 =
      if is_valid d.primary_ip
      then add_change c1 primary_ip ex.primary_ip (sv.print_addr d.primary_ip)
      else c1 in
    let c3 = add_change c2 serial ex.serial d.serial in
    if typed d.device_type
    then add_change c3 device_type ex.device_type (type_text d.device_type)
    else c3

-- diffDevice
unfoldable pub diff_device : Server → Existing → Device → List ChangeEvent
diff_device sv ex d = os_changes ex d.os (row_changes sv ex d)

abbrev first_octet_local : Option ℕ → Bool
first_octet_local none = true
first_octet_local (some octet) = nat_eq (octet / 2 % 2) 1

-- isLocallyAdministered: `parse_mac` gives the first octet of an address that net.ParseMAC reads.
unfoldable pub is_locally_administered : Server → Text → Bool
is_locally_administered sv mac = first_octet_local (sv.parse_mac mac)

-- macsOf
unfoldable pub macs_from : Server → List Interface → List Text
macs_from sv [] = []
macs_from sv (ifc ∷ ifaces) =
    let rest = macs_from sv ifaces in
    if not (is_empty ifc.mac) && not (is_locally_administered sv ifc.mac)
    then ifc.mac ∷ rest
    else rest

unfoldable pub macs_of : Server → Device → List Text
unfolding macs_from
macs_of sv d = macs_from sv d.interfaces
