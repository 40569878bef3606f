-- ===== src/Model.antt =====
-- internal/model/model.go. A Go string type with named constants is a data type of those constants
-- with `unset` for the empty string; instants are numbers of seconds; int, int64 and uint64 are ℤ.
use motzworks.Prelude.{ℕ, Bool, List, [], Option, none}
use motzworks.Prelude.Int.{ℤ}
use motzworks.Text.{Text, lit}
use motzworks.Addr.{Addr, invalid}

-- DeviceType
pub data DeviceType : Type 0 where
  unset unknown windows linux mac printer switch router firewall hypervisor vm ups : DeviceType

-- The string that a DeviceType is.
unfoldable pub type_text : DeviceType → Text
unfolding lit
type_text unset = []
type_text unknown = lit "unknown"
type_text windows = lit "windows"
type_text linux = lit "linux"
type_text mac = lit "mac"
type_text printer = lit "printer"
type_text switch = lit "switch"
type_text router = lit "router"
type_text firewall = lit "firewall"
type_text hypervisor = lit "hypervisor"
type_text vm = lit "vm"
type_text ups = lit "ups"

pub record Interface : Type 0 where
  pub name : Text
  pub mac : Text
  pub ip : Addr
  pub speed_mbps : ℤ
  pub vlan : ℤ

pub record OsInfo : Type 0 where
  pub family : Text
  pub name : Text
  pub version : Text
  pub build : Text
  pub arch : Text

pub record Hardware : Type 0 where
  pub vendor : Text
  pub model : Text
  pub serial : Text
  pub cpu : Text
  pub cpu_cores : ℤ
  pub ram_bytes : ℤ

pub record Software : Type 0 where
  pub name : Text
  pub version : Text
  pub vendor : Text
  pub install_date : Text

pub record UserAccount : Type 0 where
  pub username : Text
  pub full_name : Text
  pub last_logon : Option ℕ
  pub is_local : Bool

pub record Device : Type 0 where
  pub id : Text
  pub device_type : DeviceType
  pub hostname : Text
  pub primary_ip : Addr
  pub serial : Text
  pub asset_tag : Text
  pub ad_guid : Text
  pub source : Text
  pub first_seen : Option ℕ
  pub last_seen : Option ℕ
  pub interfaces : List Interface
  pub os : Option OsInfo
  pub hardware : Option Hardware
  pub software : List Software
  pub users : List UserAccount

-- model.Device{}
abbrev pub no_device : Device
no_device = record {
  id = [];
  device_type = unset;
  hostname = [];
  primary_ip = invalid;
  serial = [];
  asset_tag = [];
  ad_guid = [];
  source = [];
  first_seen = none;
  last_seen = none;
  interfaces = [];
  os = none;
  hardware = none;
  software = [];
  users = [];
}
