-- ===== src/Snmp/Tests.antt =====
-- Examples for the theorems on the SNMP collector.
use motzworks.Prelude.{◌≡◌, refl, true, false, List, [], ◌∷◌, ◌++◌, some, map, if◌then◌else◌}
use motzworks.Text.{Text, text_Eq, lit, text_eq, has_infix, has_prefix, is_empty, trim_space}
use motzworks.Snmp.Values.{Pdu, string, bytes, unsigned32, pdu_string}
use motzworks.Snmp.Tables.{
  Column, get, put, put_all, row_index, trim_prefix, walk_column, hardware_at, collect_hardware,
}
use motzworks.Snmp.Collect.{os_family}
use motzworks.Snmp.Rows.{IsOrder, collect_hardware_any}
use motzworks.Snmp.Ports.{Port, pdu_at}
use motzworks.Snmp.Family.{os_family_fortios}

abbrev same : Text → Text
same s = s

-- Two members of a stack, each with its serial number.
abbrev stack : Text → List Pdu
stack base =
    record { name = b'.' ∷ (base ++ lit ".1"); value = string (lit "A1") }
    ∷ record { name = b'.' ∷ (base ++ lit ".2"); value = string (lit "B2") }
    ∷ []

second_member :
    get (lit "2") (walk_column stack (lit "1.3.6.1.2.1.47.1.1.1.1.11"))
    ≡ some (record { name = lit ".1.3.6.1.2.1.47.1.1.1.1.11.2"; value = string (lit "B2") })
unfolding get walk_column put_all put row_index trim_prefix has_prefix lit text_eq
second_member = refl

second_serial : is_empty (trim_space (pdu_string same (string (lit "B2")))) ≡ false
unfolding pdu_string lit trim_space
second_serial = refl

collect_hardware_any_example :
    (order : Column → Column) × IsOrder order
    × (collect_hardware same order stack
        ≡ some (
            hardware_at same
              (walk_column stack (lit "1.3.6.1.2.1.47.1.1.1.1.13"))
              (walk_column stack (lit "1.3.6.1.2.1.47.1.1.1.1.12"))
              (lit "2")
              (trim_space (pdu_string same (string (lit "B2"))))))
collect_hardware_any_example =
    collect_hardware_any same stack (lit "2")
      (record { name = lit ".1.3.6.1.2.1.47.1.1.1.1.11.2"; value = string (lit "B2") })
      second_member second_serial

no_system :
    (has_infix (lit "fortios v7") (lit "linux") ≡ false)
    × (has_infix (lit "fortios v7") (lit "windows") ≡ false)
    × (has_infix (lit "fortios v7") (lit "junos") ≡ false)
    × (has_infix (lit "fortios v7") (lit "fortios") ≡ true)
unfolding has_infix has_prefix lit
no_system = (refl, refl, refl, refl)

os_family_fortios_example : os_family same (lit "fortios v7") ≡ lit "cisco-ios"
os_family_fortios_example =
    os_family_fortios same (lit "fortios v7") no_system.3 no_system.0 no_system.1 no_system.2

-- A port with a name, and one with neither a name nor an address.
abbrev ports : List Port
ports =
    record {
      index = lit "1";
      descr = lit "ge-0";
      phys_address = 0 ∷ 27 ∷ 33 ∷ 171 ∷ 205 ∷ 239 ∷ [];
      speed = 1_000_000_000;
    }
    ∷ record { index = lit "2"; descr = []; phys_address = []; speed = 0 }
    ∷ []

abbrev agent : Text → List Pdu
agent oid =
    if text_eq oid (lit "1.3.6.1.2.1.2.2.1.2")
    then map (pdu_at oid (λ p. string p.descr)) ports
    else if text_eq oid (lit "1.3.6.1.2.1.2.2.1.6")
    then map (pdu_at oid (λ p. bytes p.phys_address)) ports
    else map (pdu_at oid (λ p. unsigned32 p.speed)) ports
