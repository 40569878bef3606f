-- ===== src/Windows/Agree.antt =====
-- internal/collector/wmi/parse.go and internal/collector/winrm/parse.go: the two parsers on the facts of
-- one host.
use motzworks.Prelude.{◌≡◌, refl, false, List, [], ◌∷◌, map, All, Bool-cases, inl, inr}
use motzworks.Text.{Text, lit, is_empty, trim_space}
use motzworks.Addr.{Netip}
use motzworks.Model.{Software}
use motzworks.Windows.Winrm.{
  CimUser, CimSoftware, Nic, Inventory, Json, decoded, to_objects, decode_nic, first_ip4,
  interfaces_of, softwares_of, users_of, device_of, parse_int64,
}
use motzworks.Windows.Wmi.{
  WmiNet, WmiSoftware, WmiUser, WmiInventory, wmi_first_ip4, wmi_interfaces_of, wmi_softwares_of,
  wmi_users_of, wmi_device_of, first_non_empty, to_int64,
}

-- The objects of one collector as the other one writes them.
abbrev pub wmi_net : Nic → WmiNet
wmi_net n = record {
  description = n.description;
  mac_address = n.mac_address;
  ip_address = n.ip_address;
}

abbrev pub wmi_user : CimUser → WmiUser
wmi_user u = record { name = u.name; full_name = u.full_name }

abbrev pub wmi_software : CimSoftware → WmiSoftware
wmi_software s = record {
  name = s.display_name;
  version = s.display_version;
  publisher = s.publisher;
}

-- What WMI does not say.
abbrev pub undated : Software → Software
undated s = record s { install_date = [] }

users_agree : (us : List CimUser) → wmi_users_of (map wmi_user us) ≡ users_of us
unfolding wmi_users_of users_of
users_agree [] = refl
users_agree (u ∷ us) = simp (users_agree us)

softwares_agree :
    (ss : List CimSoftware)
    → All (λ s. trim_space s.display_name ≡ s.display_name) ss
    → wmi_softwares_of (map wmi_software ss) ≡ map undated (softwares_of ss)
unfolding wmi_softwares_of softwares_of
softwares_agree [] h = refl
softwares_agree (s ∷ ss) (h, hs) = elim (Bool-cases (is_empty s.display_name)) [
  | inl e ↦ simp (h, e, softwares_agree ss hs)
  | inr e ↦ simp (h, e, softwares_agree ss hs)
]

module _ (j : Json) (net : Netip) where
  first_ip4_agree : (ips : List Text) → wmi_first_ip4 net ips ≡ first_ip4 j net ips
  unfolding wmi_first_ip4 first_ip4
  first_ip4_agree [] = refl
  first_ip4_agree (ip ∷ ips) = simp (first_ip4_agree ips)

  interfaces_agree :
      (ns : List Nic) → wmi_interfaces_of net (map wmi_net ns) ≡ interfaces_of j net ns
  unfolding wmi_interfaces_of interfaces_of
  interfaces_agree [] = refl
  interfaces_agree (n ∷ ns) = simp (interfaces_agree ns, first_ip4_agree n.ip_address)

  -- The facts of an inventory, as the sidecar of WMI writes them.
  abbrev pub as_wmi : Inventory → Text → WmiInventory
  as_wmi v cs_name = record {
    caption = v.os.caption;
    version = v.os.version;
    build_number = v.os.build_number;
    os_architecture = v.os.os_architecture;
    cs_name = cs_name;
    computer_name = v.computer.name;
    manufacturer = v.computer.manufacturer;
    model = v.computer.model;
    total_physical_memory = v.computer.total_physical_memory;
    bios_serial = v.bios_serial;
    cpu_name = v.cpu.name;
    logical_processors = v.cpu.logical_processors;
    net = map wmi_net (decoded (decode_nic j net) (to_objects j net v.network));
    users = map wmi_user (decoded j.user (to_objects j net v.users));
    software = map wmi_software (decoded j.software (to_objects j net v.software));
  }

  -- If the computer has a name, and neither it nor the name of a software has white space at its
  -- ends, then the two parsers give the same device for the facts of one host, but for the source
  -- and the dates of installation, which WMI does not report.
  pub wmi_device_of-device_of :
      (v : Inventory) (cs_name : Text)
      → trim_space v.computer.name ≡ v.computer.name
      → is_empty v.computer.name ≡ false
      → All
          (λ s. trim_space s.display_name ≡ s.display_name)
          (decoded j.software (to_objects j net v.software))
      → wmi_device_of net (as_wmi v cs_name) ≡ record (device_of j net v) {
        source = lit "wmi";
        software = map undated (device_of j net v).software;
      }
  unfolding wmi_device_of device_of first_non_empty to_int64 parse_int64
  wmi_device_of-device_of v cs_name n e h = simp (
    n,
    e,
    users_agree (decoded j.user (to_objects j net v.users)),
    softwares_agree (decoded j.software (to_objects j net v.software)) h,
    interfaces_agree (decoded (decode_nic j net) (to_objects j net v.network)),
  )
