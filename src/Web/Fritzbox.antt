-- ===== src/Web/Fritzbox.antt =====
-- internal/collector/fritzbox/fritzbox.go, and net.ParseMAC for addresses of six bytes. Decoding XML
-- is a parameter.
use motzworks.Prelude.{
  ℕ, ◌+◌, ◌-◌, ◌*◌, ◌&&◌, ◌||◌, List, [], ◌∷◌, ◌++◌, Option, none, some, not, map, if◌then◌else◌,
  nat_eq, nat_Eq, ◌==◌, leb, contains, Bool, false, length,
}
use motzworks.Prelude.Int.{pos}
use motzworks.Text.{Text, lit, is_empty, trim_space, join}
use motzworks.Text.Number.{decimal}
use motzworks.Addr.{Addr, invalid}
use motzworks.Model.{Device, Interface, OsInfo, no_device, router}
use motzworks.Collector.{Credential, Target, CollectError, no_credential, failure, Collected}
use motzworks.Collector
use motzworks.Snmp.Values.{hex2}
use motzworks.Web.{Request, anonymous, Reply, broken, response, limited, port_or}

-- tr64Desc
pub record Description : Type 0 where
  pub display : Text
  pub friendly_name : Text
  pub manufacturer : Text
  pub model_name : Text
  pub model_description : Text
  pub serial_number : Text

-- TR064Port
abbrev pub tr064_port : ℕ
tr064_port = 49_000

-- firstNonEmpty
unfoldable pub first_non_empty : List Text → Text
first_non_empty [] = []
first_non_empty (v ∷ vals) =
    let rest = first_non_empty vals in let s = trim_space v in if is_empty s then rest else s

-- strings.EqualFold(s, "AVM"): no other letter folds to one of these.
unfoldable pub is_avm : Text → Bool
unfolding lit
is_avm (a ∷ v ∷ m ∷ []) =
    (a == b'A' || a == b'a') && (v == b'V' || v == b'v') && (m == b'M' || m == b'm')
is_avm _ = false

-- A digit in base 16.
abbrev hex_value : ℕ → Option ℕ
hex_value c =
    if leb b'0' c && leb c b'9'
    then some (c - b'0')
    else if leb b'a' c && leb c b'f'
    then some (c - b'a' + 10)
    else if leb b'A' c && leb c b'F'
    then some (c - b'A' + 10)
    else none

abbrev octet : Option ℕ → Option ℕ → Option ℕ
octet (some h) (some l) = some (h * 16 + l)
octet _ _ = none

abbrev octet_onto : Option ℕ → Option (List ℕ) → Option (List ℕ)
octet_onto (some x) (some xs) = some (x ∷ xs)
octet_onto _ _ = none

-- Octets of two digits, with one separator between them.
unfoldable pub octets : ℕ → Text → Option (List ℕ)
octets sep (h ∷ l ∷ []) = octet_onto (octet (hex_value h) (hex_value l)) (some [])
octets sep (h ∷ l ∷ c ∷ s) =
    let rest = octets sep s in
    if c == sep then octet_onto (octet (hex_value h) (hex_value l)) rest else none
octets sep _ = none

-- The pairs of octets of the form xxxx.xxxx.xxxx, with a dot after each second octet only.
unfoldable pub dotted : Text → Option (List ℕ)
dotted (a ∷ b ∷ c ∷ d ∷ []) =
    octet_onto (octet (hex_value a) (hex_value b))
      (octet_onto (octet (hex_value c) (hex_value d)) (some []))
dotted (a ∷ b ∷ c ∷ d ∷ e ∷ s) =
    let rest = dotted s in
    if e == b'.'
    then octet_onto (octet (hex_value a) (hex_value b))
        (octet_onto (octet (hex_value c) (hex_value d)) rest)
    else none
dotted _ = none

abbrev pub six : Option (List ℕ) → Option (List ℕ)
six (some (a ∷ b ∷ c ∷ d ∷ e ∷ f ∷ [])) = some (a ∷ b ∷ c ∷ d ∷ e ∷ f ∷ [])
six _ = none

-- net.ParseMAC where it gives six bytes: the third character says how they are separated.
unfoldable pub parse_mac_6 : Text → Option (List ℕ)
parse_mac_6 (a ∷ b ∷ c ∷ s) =
    if c == b':' || c == b'-' then six (octets c (a ∷ b ∷ c ∷ s)) else six (dotted (a ∷ b ∷ c ∷ s))
parse_mac_6 _ = none

abbrev pub printed_mac : Option (List ℕ) → Option Text
printed_mac none = none
printed_mac (some b) = some (join (b':' ∷ []) (map hex2 b))

-- parseMAC
unfoldable pub parse_mac : Text → Option Text
parse_mac s = printed_mac (parse_mac_6 (trim_space s))

abbrev pub lan : Option Text → List Interface
lan none = []
lan (some mac) =
    record { name = lit "lan"; mac = mac; ip = invalid; speed_mbps = pos 0; vlan = pos 0 } ∷ []

abbrev pub fritz_os : Text → Text → Option OsInfo
fritz_os name [] = none
fritz_os name (c ∷ v) =
    some (record { family = lit "fritzos"; name = name; version = c ∷ v; build = []; arch = [] })

-- The device of a description by AVM.
unfoldable pub box_device : Description → Device
unfolding lit
box_device d =
    let name = first_non_empty (d.model_name ∷ d.friendly_name ∷ d.model_description ∷ []) in
    record no_device {
      device_type = router;
      source = lit "fritzbox";
      hardware = some (record {
        vendor = lit "AVM";
        model = name;
        serial = trim_space d.serial_number;
        cpu = [];
        cpu_cores = pos 0;
        ram_bytes = pos 0;
      });
      os = fritz_os name (trim_space d.display);
      interfaces = lan (parse_mac d.serial_number);
    }

-- JoinHostPort
unfoldable pub join_host_port : Text → ℕ → Text
unfolding lit
join_host_port host port =
    if contains host b':'
    then lit "[" ++ (host ++ (lit "]:" ++ decimal port))
    else host ++ (lit ":" ++ decimal port)

-- io.ReadAll of the body up to its limit: an error that comes after the limit is not seen.
unfoldable pub read_all : Text → Option Text → Option Text
read_all body none = some (limited 1_048_576 body)
read_all body (some e) = if leb 1_048_576 (length body) then some (limited 1_048_576 body) else none

-- The end of fetch; `none` is any error.
unfoldable pub body_read : Reply → Option Text
unfolding read_all
body_read (broken e) = none
body_read (response status body e) = if nat_eq status 200 then read_all body e else none

module _ (decode : Text → Option Description) where
  abbrev pub claimed : Option Description → Option Device
  claimed none = none
  claimed (some d) = if not (is_avm (trim_space d.manufacturer)) then none else some (box_device d)

  -- parseDesc; its only error is ErrNoCredential, `none`.
  unfoldable pub parse_desc : Text → Option Device
  parse_desc raw = claimed (decode raw)

  module _ (send : Request → Reply) (print_addr : Addr → Text) (port : ℕ) where
    abbrev pub parsed : Target → Option Device → Collected
    parsed t none = Collector.err no_credential
    parsed t (some dev) =
        Collector.ok
          (record { target = t; device = record dev { primary_ip = t.addr }; related = [] })

    abbrev pub fetched : Target → Option Text → Collected
    fetched t none = Collector.err no_credential
    fetched t (some raw) = parsed t (parse_desc raw)

    -- fetch, of the URL of the description
    unfoldable pub fetch : Addr → Option Text
    unfolding lit
    fetch addr = body_read (
        send (record {
          url =
              lit "http://"
              ++ (join_host_port (print_addr addr) (port_or tr064_port port)
                  ++ lit "/tr64desc.xml");
          login = anonymous;
        }))

    -- Collect
    unfoldable pub collect : Target → Collected
    collect t = fetched t (fetch t.addr)
