-- ===== src/Fingerprint.antt =====
-- internal/fingerprint/fingerprint.go
use motzworks.Prelude.{ℕ, ◌≡◌, ◌||◌, List, nat_Eq, contains, if◌then◌else◌}
use motzworks.Collector.{DeviceClass, unknown, windows, linux, mac, snmp, hypervisor, firewall}
use motzworks.Model.{DeviceType, switch}

abbrev pub snmp_port : ℕ
snmp_port = 161

-- ClassifyByPorts
unfoldable pub classify_by_ports : List ℕ → DeviceClass
classify_by_ports open_ports =
    let has = λ (p : ℕ). contains open_ports p in
    if has 5985 || has 5986 || has 3389 || has 135
    then windows
    else if has snmp_port
    then snmp
    else if has 8006
    then hypervisor
    else if has 22
    then linux
    else if has 445 || has 139
    then windows
    else if has 9100 || has 631 || has 515
    then snmp
    else unknown

-- ClassToType
unfoldable pub class_to_type : DeviceClass → DeviceType
class_to_type windows = DeviceType.windows
class_to_type linux = DeviceType.linux
class_to_type mac = DeviceType.mac
class_to_type snmp = switch
class_to_type hypervisor = DeviceType.hypervisor
class_to_type firewall = DeviceType.firewall
class_to_type _ = DeviceType.unknown

-- Only the set of open ports matters: not their order, and not how often one is listed.
pub classify_by_ports_set :
    (xs ys : List ℕ)
    → ((p : ℕ) → contains xs p ≡ contains ys p)
    → classify_by_ports xs ≡ classify_by_ports ys
unfolding classify_by_ports
classify_by_ports_set xs ys h =
    rw (h 5985, h 5986, h 3389, h 135, h 161, h 8006, h 22, h 445, h 139, h 9100, h 631, h 515)
