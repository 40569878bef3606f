-- ===== src/Windows/Wmi.antt =====
-- internal/collector/wmi/parse.go.
use motzworks.Prelude.{true, ◌&&◌, List, [], ◌∷◌, Option, none, some, if◌then◌else◌}
use motzworks.Prelude.Int.{ℤ, pos}
use motzworks.Text.{Text, lit, is_empty, trim_space}
use motzworks.Text.Number.{atoi}
use motzworks.Addr.{Addr, Netip, invalid, is4}
use motzworks.Model.{Device, Interface, Software, UserAccount, no_device, windows}

pub record WmiNet : Type 0 where
  pub description : Text
  pub mac_address : Text
  pub ip_address : List Text

pub record WmiSoftware : Type 0 where
  pub name : Text
  pub version : Text
  pub publisher : Text

pub record WmiUser : Type 0 where
  pub name : Text
  pub full_name : Text

pub record WmiInventory : Type 0 where
  pub caption : Text
  pub version : Text
  pub build_number : Text
  pub os_architecture : Text
  pub cs_name : Text
  pub computer_name : Text
  pub manufacturer : Text
  pub model : Text
  pub total_physical_memory : Text
  pub bios_serial : Text
  pub cpu_name : Text
  pub logical_processors : ℤ
  pub net : List WmiNet
  pub users : List WmiUser
  pub software : List WmiSoftware

-- toInt64
abbrev or_zero : Option ℤ → ℤ
or_zero none = pos 0
or_zero (some n) = n

unfoldable pub to_int64 : Text → ℤ
to_int64 n = if is_empty n then pos 0 else or_zero (atoi n)

-- firstNonEmpty
unfoldable pub first_non_empty : List Text → Text
first_non_empty [] = []
first_non_empty (v ∷ vals) = let s = trim_space v in if is_empty s then first_non_empty vals else s

unfoldable pub wmi_users_of : List WmiUser → List UserAccount
wmi_users_of [] = []
wmi_users_of (u ∷ us) =
    let rest = wmi_users_of us in
    if is_empty (trim_space u.name)
    then rest
    else record {
      username = u.name;
      full_name = trim_space u.full_name;
      last_logon = none;
      is_local = true;
    }
      ∷ rest

unfoldable pub wmi_softwares_of : List WmiSoftware → List Software
wmi_softwares_of [] = []
wmi_softwares_of (s ∷ ss) =
    let rest = wmi_softwares_of ss in
    if is_empty (trim_space s.name)
    then rest
    else record {
      name = s.name;
      version = trim_space s.version;
      vendor = trim_space s.publisher;
      install_date = [];
    }
      ∷ rest

module _ (net : Netip) where
  abbrev or_next : Option Addr → Addr → Addr
  or_next none next = next
  or_next (some a) next = if is4 a then a else next

  unfoldable pub wmi_first_ip4 : List Text → Addr
  wmi_first_ip4 [] = invalid
  wmi_first_ip4 (ip ∷ ips) = or_next (net.parse_addr (trim_space ip)) (wmi_first_ip4 ips)

  unfoldable pub wmi_interfaces_of : List WmiNet → List Interface
  wmi_interfaces_of [] = []
  wmi_interfaces_of (n ∷ ns) =
      let rest = wmi_interfaces_of ns in
      let mac = trim_space n.mac_address in
      if is_empty n.description && is_empty mac
      then rest
      else record {
        name = n.description;
        mac = mac;
        ip = wmi_first_ip4 n.ip_address;
        speed_mbps = pos 0;
        vlan = pos 0;
      }
        ∷ rest

  -- parseInventory, of a document that decodes.
  unfoldable pub wmi_device_of : WmiInventory → Device
  unfolding lit
  wmi_device_of inv = record no_device {
    device_type = windows;
    source = lit "wmi";
    hostname = first_non_empty (inv.computer_name ∷ inv.cs_name ∷ []);
    serial = trim_space inv.bios_serial;
    os = some (record {
      family = lit "windows";
      name = inv.caption;
      version = inv.version;
      build = inv.build_number;
      arch = inv.os_architecture;
    });
    hardware = some (record {
      vendor = inv.manufacturer;
      model = inv.model;
      serial = trim_space inv.bios_serial;
      cpu = trim_space inv.cpu_name;
      cpu_cores = inv.logical_processors;
      ram_bytes = to_int64 inv.total_physical_memory;
    });
    interfaces = wmi_interfaces_of inv.net;
    users = wmi_users_of inv.users;
    software = wmi_softwares_of inv.software;
  }
