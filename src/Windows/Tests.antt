-- ===== src/Windows/Tests.antt =====
-- Examples for the theorems on the Windows collectors.
use motzworks.Prelude.{◌≡◌, refl, [], ◌∷◌, ◌++◌, map, none, some}
use motzworks.Prelude.Int.{pos}
use motzworks.Text.{lit, text_eq, trim_space}
use motzworks.Addr.{Netip}
use motzworks.Windows.Winrm.{CimSoftware, Inventory, Json, decoded, to_objects, device_of}
use motzworks.Windows.Wmi.{wmi_device_of}
use motzworks.Windows.Collect.{split_domain_user}
use motzworks.Windows.Account.{IsPlain, split_domain_user-spellings}
use motzworks.Windows.Agree.{as_wmi, undated, wmi_device_of-device_of}

abbrev editor : CimSoftware
editor = record {
  display_name = lit "vim";
  display_version = lit "9.1 ";
  publisher = [];
  install_date = lit "20260101";
}

-- Every object decodes as the same software, and to no card and no user.
abbrev json : Json
json = record {
  inventory = λ t. none;
  elements = λ t. some (t ∷ t ∷ []);
  strings = λ t. none;
  single = λ t. none;
  net = λ t. none;
  software = λ t. some editor;
  user = λ t. some (record { name = lit "ann"; full_name = lit " Ann" });
}

abbrev netip : Netip
netip = record { parse_addr = λ t. none; parse_prefix = λ t. none; print_addr = λ a. [] }

abbrev host : Inventory
host = record {
  os = record {
    caption = lit "Windows 11";
    version = lit "10.0";
    build_number = lit "22631";
    os_architecture = lit "64-bit";
  };
  computer = record {
    name = lit "WS1";
    domain = [];
    manufacturer = lit "Dell";
    model = [];
    total_physical_memory = lit "1024";
  };
  bios_serial = lit "S1 ";
  cpu = record { name = lit "Xeon"; logical_processors = pos 8 };
  network = [];
  software = lit "[{},{}]";
  users = lit "{}";
}

wmi_device_of-device_of_example :
    wmi_device_of netip (as_wmi json netip host []) ≡ record (device_of json netip host) {
      source = lit "wmi";
      software = map undated (device_of json netip host).software;
    }
unfolding trim_space decoded to_objects text_eq
wmi_device_of-device_of_example =
    wmi_device_of-device_of json netip host [] refl refl (refl, (refl, tt))

user-IsPlain : IsPlain (lit "ann")
unfolding lit
user-IsPlain = record { no_slash = (refl, (refl, (refl, tt))); no_at = (refl, (refl, (refl, tt))) }

domain-IsPlain : IsPlain (lit "ad")
unfolding lit
domain-IsPlain = record { no_slash = (refl, (refl, tt)); no_at = (refl, (refl, tt)) }

split_domain_user-spellings_example :
    (split_domain_user (lit "ad" ++ 0x5c ∷ lit "ann") (lit " d") ≡ (lit "ann", lit "ad"))
    × (split_domain_user (lit "ad" ++ b'/' ∷ lit "ann") (lit " d") ≡ (lit "ann", lit "ad"))
    × (split_domain_user (lit "ann" ++ b'@' ∷ lit "ad") (lit " d") ≡ (lit "ann", lit "ad"))
    × (split_domain_user (lit "ann") (lit " d") ≡ (lit "ann", trim_space (lit " d")))
unfolding lit trim_space
split_domain_user-spellings_example =
    split_domain_user-spellings (lit "ann") (lit "ad") (lit " d") user-IsPlain domain-IsPlain refl
      refl refl refl
