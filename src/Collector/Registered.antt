-- ===== src/Collector/Registered.antt =====
-- cmd/motzworks/collectors.go, and the methods Name and Supports of the collectors that it
-- registers. What each Collect returns is a parameter.
use motzworks.Prelude.{◌≡◌, refl, Bool, true, false, List, [], ◌∷◌, map}
use motzworks.Text.{Text, lit}
use motzworks.Collector.{
  DeviceClass, unknown, windows, linux, mac, hypervisor, firewall, Target, Collected, Collector,
  Registry, new_registry, register, supporting, for_class,
}

pub data Kind : Type 0 where
  ssh snmp wmi winrm proxmox opnsense fortigate fritzbox : Kind

-- Name
unfoldable pub name : Kind → Text
name ssh = lit "ssh"
name snmp = lit "snmp"
name wmi = lit "wmi"
name winrm = lit "winrm"
name proxmox = lit "proxmox"
name opnsense = lit "opnsense"
name fortigate = lit "fortigate"
name fritzbox = lit "fritzbox"

-- The Supports of each collector.
abbrev ssh_supports : DeviceClass → Bool
ssh_supports linux = true
ssh_supports mac = true
ssh_supports unknown = true
ssh_supports _ = false

abbrev snmp_supports : DeviceClass → Bool
snmp_supports DeviceClass.snmp = true
snmp_supports firewall = true
snmp_supports _ = false

abbrev wmi_supports : DeviceClass → Bool
wmi_supports windows = true
wmi_supports _ = false

abbrev winrm_supports : DeviceClass → Bool
winrm_supports windows = true
winrm_supports _ = false

abbrev proxmox_supports : DeviceClass → Bool
proxmox_supports hypervisor = true
proxmox_supports _ = false

abbrev opnsense_supports : DeviceClass → Bool
opnsense_supports firewall = true
opnsense_supports unknown = true
opnsense_supports _ = false

abbrev fortigate_supports : DeviceClass → Bool
fortigate_supports firewall = true
fortigate_supports unknown = true
fortigate_supports _ = false

abbrev fritzbox_supports : DeviceClass → Bool
fritzbox_supports unknown = true
fritzbox_supports firewall = true
fritzbox_supports _ = false

unfoldable pub supports : Kind → DeviceClass → Bool
supports ssh = ssh_supports
supports snmp = snmp_supports
supports wmi = wmi_supports
supports winrm = winrm_supports
supports proxmox = proxmox_supports
supports opnsense = opnsense_supports
supports fortigate = fortigate_supports
supports fritzbox = fritzbox_supports

module _ (collect : Kind → Target → Collected) where
  unfoldable pub collector : Kind → Collector
  collector k = record { name = name k; supports = supports k; collect = collect k }

  -- registerCollectors
  unfoldable pub register_collectors : Registry → Registry
  register_collectors r0 =
      let r1 = register r0 (collector ssh) in
      let r2 = register r1 (collector snmp) in
      let r3 = register r2 (collector wmi) in
      let r4 = register r3 (collector winrm) in
      let r5 = register r4 (collector proxmox) in
      let r6 = register r5 (collector opnsense) in
      let r7 = register r6 (collector fortigate) in register r7 (collector fritzbox)

  -- The collectors that the engine tries, in its order.
  abbrev pub tried : DeviceClass → List Kind
  tried windows = wmi ∷ winrm ∷ []
  tried linux = ssh ∷ []
  tried mac = ssh ∷ []
  tried DeviceClass.snmp = snmp ∷ []
  tried hypervisor = proxmox ∷ []
  tried firewall = snmp ∷ opnsense ∷ fortigate ∷ fritzbox ∷ []
  tried unknown = ssh ∷ opnsense ∷ fortigate ∷ fritzbox ∷ []
  tried _ = []

  -- For every class the registry gives exactly these collectors, in this order: WMI and WinRM for
  -- Windows; SSH for Linux and macOS; SNMP for SNMP devices; Proxmox for hypervisors; SNMP,
  -- OPNsense, FortiGate and FRITZ!Box for firewalls; SSH, OPNsense, FortiGate and FRITZ!Box for
  -- unknown hosts; none for a class that is not set.
  pub for_class-register_collectors :
      (class : DeviceClass)
      → for_class (register_collectors new_registry) class ≡ map collector (tried class)
  unfolding for_class supporting register register_collectors collector supports
  for_class-register_collectors windows = refl
  for_class-register_collectors _ = refl
