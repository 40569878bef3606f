-- ===== src/Snmp/Ports.antt =====
-- internal/collector/snmp/snmp.go: the interfaces that are read from the ifTable of an agent.
use mathlib.Core.List.{Perm}
use mathlib.Core.List.Perm
use mathlib.Core.List
use motzworks.Prelude.{
  ℕ, ◌/◌, ◌≡◌, Bool, ◌&&◌, not, List, ◌++◌, map, Option, none, some, All, Distinct, if◌then◌else◌,
}
use motzworks.Prelude.Int.{pos}
use motzworks.Text.{Text, lit, is_empty, text_Eq}
use motzworks.Addr.{invalid}
use motzworks.Model.{Interface}
use motzworks.Snmp.Values.{Value, Pdu, bytes, string, unsigned32, pdu_mac}
use motzworks.Snmp.Tables.{Column, get, interface_of, is_named}

-- A row of the ifTable: its index, ifDescr, ifPhysAddress, and ifSpeed in bits per second.
pub record Port : Type 0 where
  pub index : Text
  pub descr : Text
  pub phys_address : List ℕ
  pub speed : ℕ

-- The PDU of a row in the column of this OID.
abbrev pub pdu_at : Text → (Port → Value) → Port → Pdu
pdu_at oid value p = record { name = lit "." ++ (oid ++ (lit "." ++ p.index)); value = value p }

-- An agent that serves these rows.
pub record IsAgent (walk : Text → List Pdu) (ports : List Port) : Type 0 where
  pub once : Distinct (map (λ p. p.index) ports)
  pub descrs :
      walk (lit "1.3.6.1.2.1.2.2.1.2")
      ≡ map (pdu_at (lit "1.3.6.1.2.1.2.2.1.2") (λ p. string p.descr)) ports
  pub macs :
      walk (lit "1.3.6.1.2.1.2.2.1.6")
      ≡ map (pdu_at (lit "1.3.6.1.2.1.2.2.1.6") (λ p. bytes p.phys_address)) ports
  pub speeds :
      walk (lit "1.3.6.1.2.1.2.2.1.5")
      ≡ map (pdu_at (lit "1.3.6.1.2.1.2.2.1.5") (λ p. unsigned32 p.speed)) ports

-- The interface of a row.
abbrev pub interface_at : Port → Interface
interface_at p = record {
  name = p.descr;
  mac = pdu_mac (bytes p.phys_address);
  ip = invalid;
  speed_mbps = pos (p.speed / 1_000_000);
  vlan = pos 0;
}

-- It has a name or a MAC address.
abbrev pub is_listed : Port → Bool
is_listed p = not (is_empty p.descr && is_empty (pdu_mac (bytes p.phys_address)))

abbrev keys : Column → List Text
keys col = map (λ e. e.0) col

module _ (oid : Text) (value : Port → Value) where
  abbrev row : Port → Text × Pdu
  row p = (p.index, pdu_at oid value p)

  Found : Column → List Port → Type 0
  Found col ports = All (λ p. get p.index col ≡ some (pdu_at oid value p)) ports

module _ (to_text : List ℕ → Text) where
  module _ (macs speeds : Column) where
    abbrev named : Text × Pdu → Option Interface
    named row =
        if is_named to_text (interface_of to_text macs speeds row)
        then some (interface_of to_text macs speeds row)
        else none
