-- ===== src/Snmp/Tables.antt =====
-- internal/collector/snmp/snmp.go: walks over tables, and the interfaces and the hardware that are
-- read from them. The order in which `range` visits a map is the argument `order`.
use motzworks.Prelude.{
  ℕ, Bool, ◌&&◌, not, List, [], ◌∷◌, ◌++◌, Option, none, some, nat_eq, if◌then◌else◌, nat_Eq,
}
use motzworks.Prelude.Int.{ℤ, pos}
use motzworks.Text.{Text, lit, is_empty, text_eq, trim_space, has_prefix}
use motzworks.Addr.{invalid}
use motzworks.Model.{Interface, Hardware}
use motzworks.Snmp.Values.{Pdu, pdu_string, pdu_uint, pdu_mac, quot}

-- strings.TrimPrefix
unfoldable pub trim_prefix : Text → Text → Text
trim_prefix s [] = s
trim_prefix [] (d ∷ t) = []
trim_prefix (c ∷ s) (d ∷ t) =
    let rest = trim_prefix s t in if nat_eq c d && has_prefix s t then rest else c ∷ s

-- A map from row indices to PDUs, with its keys in the order of their first entry.
abbrev pub Column : Type 0
Column = List (Text × Pdu)

unfoldable pub put : Text → Pdu → Column → Column
put k p [] = (k, p) ∷ []
put k p ((k', q) ∷ col) = if text_eq k' k then (k, p) ∷ col else (k', q) ∷ put k p col

unfoldable pub get : Text → Column → Option Pdu
get k [] = none
get k ((k', q) ∷ col) = if text_eq k' k then some q else get k col

-- The callback of walkColumn.
unfoldable pub row_index : Text → Text → Text
unfolding lit
row_index base name = trim_prefix (trim_prefix (trim_prefix name (lit "." ++ base)) base) (lit ".")

unfoldable pub put_all : Text → List Pdu → Column → Column
put_all base [] col = col
put_all base (p ∷ ps) col = put_all base ps (put (row_index base p.name) p col)

-- walkColumn; an error of the walk keeps the PDUs that came before it.
unfoldable pub walk_column : (Text → List Pdu) → Text → Column
walk_column walk base = put_all base (walk base) []

module _ (to_text : List ℕ → Text) where
  abbrev mac_or_empty : Option Pdu → Text
  mac_or_empty none = []
  mac_or_empty (some p) = pdu_mac p.value

  abbrev mbps_or_zero : Option Pdu → ℤ
  mbps_or_zero none = pos 0
  mbps_or_zero (some p) = quot (pdu_uint to_text p.value) 1_000_000

  -- One round of the loop of collectInterfaces.
  unfoldable pub interface_of : Column → Column → Text × Pdu → Interface
  interface_of macs speeds (idx, d) = record {
    name = pdu_string to_text d.value;
    mac = mac_or_empty (get idx macs);
    ip = invalid;
    speed_mbps = mbps_or_zero (get idx speeds);
    vlan = pos 0;
  }

  abbrev pub is_named : Interface → Bool
  is_named i = not (is_empty i.name && is_empty i.mac)

  unfoldable pub interfaces_of : Column → Column → Column → List Interface
  interfaces_of macs speeds [] = []
  interfaces_of macs speeds (row ∷ rows) =
      let rest = interfaces_of macs speeds rows in
      if is_named (interface_of macs speeds row) then interface_of macs speeds row ∷ rest else rest

  abbrev trimmed : Option Pdu → Text
  trimmed none = []
  trimmed (some p) = trim_space (pdu_string to_text p.value)

  abbrev pub hardware_at : Column → Column → Text → Text → Hardware
  hardware_at models mfgs idx serial = record {
    vendor = trimmed (get idx mfgs);
    model = trimmed (get idx models);
    serial = serial;
    cpu = [];
    cpu_cores = pos 0;
    ram_bytes = pos 0;
  }

  -- The loop of collectHardware.
  unfoldable pub first_hardware : Column → Column → Column → Option Hardware
  first_hardware models mfgs [] = none
  first_hardware models mfgs ((idx, s) ∷ rows) =
      let serial = trim_space (pdu_string to_text s.value) in
      if is_empty serial
      then first_hardware models mfgs rows
      else some (hardware_at models mfgs idx serial)

  module _ (order : Column → Column) where
    -- collectInterfaces
    unfoldable pub collect_interfaces : (Text → List Pdu) → List Interface
    unfolding lit
    collect_interfaces walk =
        interfaces_of (walk_column walk (lit "1.3.6.1.2.1.2.2.1.6"))
          (walk_column walk (lit "1.3.6.1.2.1.2.2.1.5"))
          (order (walk_column walk (lit "1.3.6.1.2.1.2.2.1.2")))

    -- collectHardware
    unfoldable pub collect_hardware : (Text → List Pdu) → Option Hardware
    unfolding lit
    collect_hardware walk =
        first_hardware (walk_column walk (lit "1.3.6.1.2.1.47.1.1.1.1.13"))
          (walk_column walk (lit "1.3.6.1.2.1.47.1.1.1.1.12"))
          (order (walk_column walk (lit "1.3.6.1.2.1.47.1.1.1.1.11")))
