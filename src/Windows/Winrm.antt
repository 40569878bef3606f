-- ===== src/Windows/Winrm.antt =====
-- internal/collector/winrm/parse.go. The fields of the document that PowerShell may collapse stay
-- JSON texts, as json.RawMessage is.
use motzworks.Prelude.{
  Bool, true, false, ◌&&◌, ◌||◌, List, [], ◌∷◌, Option, none, some, if◌then◌else◌, nat_Eq, ◌==◌,
}
use motzworks.Prelude.Int.{ℤ, pos}
use motzworks.Text.{Text, lit, is_empty, text_eq, trim_space}
use motzworks.Text.Number.{atoi}
use motzworks.Addr.{Addr, Netip, invalid, is4}
use motzworks.Model.{Device, Interface, Software, UserAccount, no_device, windows}

pub record CimOs : Type 0 where
  pub caption : Text
  pub version : Text
  pub build_number : Text
  pub os_architecture : Text

pub record CimComputer : Type 0 where
  pub name : Text
  pub domain : Text
  pub manufacturer : Text
  pub model : Text
  pub total_physical_memory : Text

pub record CimCpu : Type 0 where
  pub name : Text
  pub logical_processors : ℤ

-- cimNet, with its addresses as they are in the document.
pub record CimNet : Type 0 where
  pub description : Text
  pub mac_address : Text
  pub ip_address : Text

pub record Nic : Type 0 where
  pub description : Text
  pub mac_address : Text
  pub ip_address : List Text

pub record CimSoftware : Type 0 where
  pub display_name : Text
  pub display_version : Text
  pub publisher : Text
  pub install_date : Text

pub record CimUser : Type 0 where
  pub name : Text
  pub full_name : Text

pub record Inventory : Type 0 where
  pub os : CimOs
  pub computer : CimComputer
  pub bios_serial : Text
  pub cpu : CimCpu
  pub network : Text
  pub software : Text
  pub users : Text

-- json.Unmarshal into each type; `none` is its error.
pub record Json : Type 0 where
  pub inventory : Text → Option Inventory
  pub elements : Text → Option (List Text)
  pub strings : Text → Option (List Text)
  pub single : Text → Option Text
  pub net : Text → Option CimNet
  pub software : Text → Option CimSoftware
  pub user : Text → Option CimUser

abbrev is_null : Text → Bool
is_null t = is_empty t || text_eq t (lit "null")

abbrev starts_array : Text → Bool
starts_array [] = false
starts_array (c ∷ t) = c == b'['

abbrev pub or_nil {ℓ} : {A : Type ℓ} → Option (List A) → List A
or_nil none = []
or_nil (some xs) = xs

abbrev one {ℓ} : {A : Type ℓ} → Option A → Option (List A)
one none = none
one (some a) = some (a ∷ [])

-- parseInt64
abbrev pub or_zero : Option ℤ → ℤ
or_zero none = pos 0
or_zero (some n) = n

unfoldable pub parse_int64 : Text → ℤ
parse_int64 n = if is_empty n then pos 0 else or_zero (atoi n)

-- The objects that decode; the others are skipped.
unfoldable pub decoded {ℓ} : {A : Type ℓ} → (Text → Option A) → List Text → List A
decoded decode [] = []
decoded decode (raw ∷ raws) =
    let rest = decoded decode raws in elim (decode raw) [ none ↦ rest | some a ↦ a ∷ rest ]

unfoldable pub softwares_of : List CimSoftware → List Software
softwares_of [] = []
softwares_of (s ∷ ss) =
    let rest = softwares_of ss in
    let name = trim_space s.display_name in
    if is_empty name
    then rest
    else record {
      name = name;
      version = trim_space s.display_version;
      vendor = trim_space s.publisher;
      install_date = trim_space s.install_date;
    }
      ∷ rest

unfoldable pub users_of : List CimUser → List UserAccount
users_of [] = []
users_of (u ∷ us) =
    let rest = users_of us in
    if is_empty (trim_space u.name)
    then rest
    else record {
      username = u.name;
      full_name = trim_space u.full_name;
      last_logon = none;
      is_local = true;
    }
      ∷ rest

module _ (j : Json) (net : Netip) where
  -- stringList.UnmarshalJSON
  unfoldable pub string_list : Text → Option (List Text)
  unfolding lit
  string_list b =
      let t = trim_space b in
      if is_null t then some [] else if starts_array t then j.strings t else one (j.single t)

  -- toObjects
  unfoldable pub to_objects : Text → List Text
  unfolding lit
  to_objects raw =
      let t = trim_space raw in
      if is_null t then [] else if starts_array t then or_nil (j.elements t) else t ∷ []

  abbrev with_ips : CimNet → Option (List Text) → Option Nic
  with_ips n none = none
  with_ips n (some ips) =
      some (record { description = n.description; mac_address = n.mac_address; ip_address = ips })

  abbrev nic_of : Option CimNet → Option Nic
  nic_of none = none
  nic_of (some n) = with_ips n (string_list n.ip_address)

  unfoldable pub decode_nic : Text → Option Nic
  decode_nic raw = nic_of (j.net raw)

  abbrev or_next : Option Addr → Addr → Addr
  or_next none next = next
  or_next (some a) next = if is4 a then a else next

  -- The first IPv4 address.
  unfoldable pub first_ip4 : List Text → Addr
  first_ip4 [] = invalid
  first_ip4 (ip ∷ ips) = or_next (net.parse_addr (trim_space ip)) (first_ip4 ips)

  unfoldable pub interfaces_of : List Nic → List Interface
  interfaces_of [] = []
  interfaces_of (n ∷ ns) =
      let rest = interfaces_of ns in
      let mac = trim_space n.mac_address in
      if is_empty n.description && is_empty mac
      then rest
      else record {
        name = n.description;
        mac = mac;
        ip = first_ip4 n.ip_address;
        speed_mbps = pos 0;
        vlan = pos 0;
      }
        ∷ rest

  -- The device of a document that decodes.
  unfoldable pub device_of : Inventory → Device
  unfolding lit
  device_of inv = record no_device {
    device_type = windows;
    source = lit "winrm";
    hostname = inv.computer.name;
    serial = trim_space inv.bios_serial;
    os = some (record {
      family = lit "windows";
      name = inv.os.caption;
      version = inv.os.version;
      build = inv.os.build_number;
      arch = inv.os.os_architecture;
    });
    hardware = some (record {
      vendor = inv.computer.manufacturer;
      model = inv.computer.model;
      serial = trim_space inv.bios_serial;
      cpu = trim_space inv.cpu.name;
      cpu_cores = inv.cpu.logical_processors;
      ram_bytes = parse_int64 inv.computer.total_physical_memory;
    });
    interfaces = interfaces_of (decoded decode_nic (to_objects inv.network));
    software = softwares_of (decoded j.software (to_objects inv.software));
    users = users_of (decoded j.user (to_objects inv.users));
  }

  abbrev parsed : Option Inventory → Option Device
  parsed none = none
  parsed (some inv) = some (device_of inv)

  -- parseInventory; `none` is the error of the decoder.
  unfoldable pub parse_inventory : Text → Option Device
  parse_inventory b = parsed (j.inventory b)
