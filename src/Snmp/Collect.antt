-- ===== src/Snmp/Collect.antt =====
-- internal/collector/snmp/snmp.go: Collect. What the gosnmp session answers to Connect, Get and
-- BulkWalk is the data Agent; conversions of bytes to a string and to lower case, the quoting of %q
-- and the order in which `range` visits a map are parameters.
use motzworks.Prelude.{
  ℕ, ◌||◌, List, [], ◌∷◌, ◌++◌, Option, none, some, find_first, if◌then◌else◌, nat_Eq,
}
use motzworks.Text.{Text, lit, is_empty, text_eq, trim_space, has_infix, split}
use motzworks.Model.{Device, OsInfo, no_device, switch}
use motzworks.Collector.{Credential, Target, no_credential, failure, Collected}
use motzworks.Collector
use motzworks.Snmp.Values.{Pdu, pdu_string}
use motzworks.Snmp.Tables.{Column, collect_interfaces, collect_hardware}

-- pickCredential
unfoldable pub pick_credential : List Credential → Option Credential
unfolding lit
pick_credential =
    find_first λ cr. text_eq cr.kind (lit "snmp-v2c") || text_eq cr.kind (lit "snmp-v3")

-- The security of a session.
pub data Session : Type 0 where
  v2c : Text → Session
  v3 : Text → Text → Text → Session

abbrev lookup : Text → List (Text × Text) → Text
lookup key [] = []
lookup key ((k, v) ∷ kvs) = if text_eq k key then v else lookup key kvs

-- client, before Connect; `none` is the error on the credential's kind.
unfoldable pub session_of : Credential → Option Session
unfolding lit
session_of cred =
    if text_eq cred.kind (lit "snmp-v2c") || is_empty cred.kind
    then some (v2c (if is_empty cred.secret then lit "public" else cred.secret))
    else if text_eq cred.kind (lit "snmp-v3")
    then some (
        v3 cred.username (lookup (lit "auth_pass") cred.extra)
          (lookup (lit "priv_pass") cred.extra))
    else none

-- firstLine
unfoldable pub first_nonempty : List Text → Text
first_nonempty [] = []
first_nonempty (raw ∷ rest) =
    let line = trim_space raw in if is_empty line then first_nonempty rest else line

unfoldable pub first_line : Text → Text
first_line s = first_nonempty (split 10 s)

-- The cases of osFamily, on the text in lower case.
unfoldable pub family_of : Text → Text
unfolding lit
family_of s =
    if has_infix s (lit "linux")
    then lit "linux"
    else if has_infix s (lit "windows")
    then lit "windows"
    else if has_infix s (lit "junos")
    then lit "junos"
    else if has_infix s (lit "ios") || has_infix s (lit "cisco")
    then lit "cisco-ios"
    else if has_infix s (lit "fortios") || has_infix s (lit "fortigate")
    then lit "fortios"
    else []

-- osFamily
unfoldable pub os_family : (Text → Text) → Text → Text
os_family to_lower sys_descr = family_of (to_lower sys_descr)

module _ (to_text : List ℕ → Text) (to_lower quote : Text → Text) where
  module _ (order : Column → Column) where
    -- The loop over the scalars: sysDescr and sysName.
    unfoldable pub scalars_of : List Pdu → Text × Text → Text × Text
    unfolding lit
    scalars_of [] (descr, name) = (descr, name)
    scalars_of (p ∷ ps) (descr, name) =
        if text_eq p.name (lit ".1.3.6.1.2.1.1.1.0")
        then scalars_of ps (pdu_string to_text p.value, name)
        else if text_eq p.name (lit ".1.3.6.1.2.1.1.5.0")
        then scalars_of ps (descr, pdu_string to_text p.value)
        else scalars_of ps (descr, name)

    abbrev os_of : Text → Option OsInfo
    os_of [] = none
    os_of (c ∷ descr) = some (record {
      family = os_family to_lower (c ∷ descr);
      name = first_line (c ∷ descr);
      version = [];
      build = [];
      arch = [];
    })

    -- The device that Collect builds.
    unfoldable pub inventory : Target → List Pdu → (Text → List Pdu) → Device
    unfolding lit
    inventory t scalars walk =
        let (descr, name) = scalars_of scalars ([], []) in
        record no_device {
          device_type = switch;
          hostname = name;
          primary_ip = t.addr;
          source = lit "snmp";
          interfaces = collect_interfaces to_text order walk;
          os = os_of descr;
          hardware = collect_hardware to_text order walk;
        }

    -- Connect's error, or Get's error, or the scalars with the walks.
    pub data Agent : Type 0 where
      unreachable : Text → Agent
      get_failed : Text → Agent
      answers : List Pdu → (Text → List Pdu) → Agent

    abbrev pub read : Target → Agent → Collected
    read t (unreachable e) = Collector.err (failure (lit "snmp connect: " ++ e))
    read t (get_failed e) = Collector.err (failure (lit "snmp get: " ++ e))
    read t (answers scalars walk) =
        Collector.ok (record { target = t; device = inventory t scalars walk; related = [] })

    abbrev connected : (Session → Agent) → Target → Credential → Option Session → Collected
    connected connect t cred none =
        Collector.err (failure (lit "unsupported snmp credential kind " ++ quote cred.kind))
    connected connect t cred (some s) = read t (connect s)

    abbrev with_credential : (Session → Agent) → Target → Option Credential → Collected
    with_credential connect t none = Collector.err no_credential
    with_credential connect t (some cred) = connected connect t cred (session_of cred)

    -- Collect
    unfoldable pub collect : (Session → Agent) → Target → Collected
    collect connect t = with_credential connect t (pick_credential t.credentials)
