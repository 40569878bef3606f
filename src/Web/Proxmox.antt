-- ===== src/Web/Proxmox.antt =====
-- internal/collector/proxmox/proxmox.go and parse.go. Decoding JSON is a parameter.
use motzworks.Prelude.{ℕ, ◌||◌, List, [], ◌∷◌, ◌++◌, Option, none, some, if◌then◌else◌}
use motzworks.Prelude.Int.{ℤ, pos, ltb_ℤ}
use motzworks.Text.{Text, lit, is_empty}
use motzworks.Addr.{Addr}
use motzworks.Model.{Device, Hardware, no_device, hypervisor, vm}
use motzworks.Collector.{
  Credential, Target, Related, CollectError, no_credential, failure, Collected,
}
use motzworks.Collector
use motzworks.Web.{
  Request, authorization, Reply, Tried, ok, err, port_or, https_base, body_of, first_of_kind,
}

pub record VersionInfo : Type 0 where
  pub version : Text
  pub release : Text
  pub repo_id : Text

pub record NodeInfo : Type 0 where
  pub node : Text
  pub status : Text
  pub max_cpu : ℤ
  pub max_mem : ℤ

pub record VmInfo : Type 0 where
  pub vmid : ℤ
  pub name : Text
  pub node : Text
  pub type : Text
  pub status : Text
  pub max_mem : ℤ
  pub max_cpu : ℤ

-- json.Unmarshal into versionResp, nodesResp and vmResp.
pub record Json : Type 0 where
  pub version : Text → Tried VersionInfo
  pub nodes : Text → Tried (List NodeInfo)
  pub vms : Text → Tried (List VmInfo)

-- pickCredential
unfoldable pub pick_credential : List Credential → Option Credential
unfolding lit
pick_credential = first_of_kind (lit "proxmox-token")

abbrev pub with_node : Device → Tried (List NodeInfo) → Device
with_node dev (err e) = dev
with_node dev (ok []) = dev
with_node dev (ok (n ∷ ns)) = record dev {
  hostname = n.node;
  hardware = some (record {
    vendor = lit "Proxmox";
    model = [];
    serial = [];
    cpu = [];
    cpu_cores = n.max_cpu;
    ram_bytes = n.max_mem;
  });
}

abbrev pub versioned : VersionInfo → Device
versioned v = record no_device {
  device_type = hypervisor;
  source = lit "proxmox";
  os = some (record {
    family = lit "proxmox";
    name = lit "Proxmox VE";
    version = v.version;
    build = [];
    arch = [];
  });
}

abbrev pub hypervisor_of : Tried VersionInfo → Tried (List NodeInfo) → Tried Device
hypervisor_of (err e) nodes = err e
hypervisor_of (ok v) nodes = ok (with_node (versioned v) nodes)

unfoldable pub vm_hardware : VmInfo → Option Hardware
vm_hardware v =
    if ltb_ℤ (pos 0) v.max_cpu || ltb_ℤ (pos 0) v.max_mem
    then some (record {
      vendor = [];
      model = [];
      serial = [];
      cpu = [];
      cpu_cores = v.max_cpu;
      ram_bytes = v.max_mem;
    })
    else none

unfoldable pub vm_related : VmInfo → Related
unfolding lit
vm_related v = record {
  device = record no_device {
    device_type = vm;
    hostname = v.name;
    source = lit "proxmox";
    hardware = vm_hardware v;
  };
  kind = lit "hosts-vm";
}

-- The loop of buildVMs.
unfoldable pub related_of : List VmInfo → List Related
related_of [] = []
related_of (v ∷ vs) =
    let rest = related_of vs in if is_empty v.name then rest else vm_related v ∷ rest

abbrev pub vms_or_none : Tried (List VmInfo) → List Related
vms_or_none (err e) = []
vms_or_none (ok vs) = related_of vs

module _ (j : Json) where
  -- buildHypervisor
  unfoldable pub build_hypervisor : Text → Text → Tried Device
  build_hypervisor ver_raw nodes_raw = hypervisor_of (j.version ver_raw) (j.nodes nodes_raw)

  -- buildVMs, whose error leaves no VM.
  unfoldable pub build_vms : Text → List Related
  build_vms vms_raw = vms_or_none (j.vms vms_raw)

  module _ (send : Request → Reply) (print_addr : Addr → Text) (port : ℕ) where
    -- The closure `get`.
    unfoldable pub get : Target → Credential → Text → Tried Text
    unfolding lit
    get t cred path = body_of (
        send (record {
          url = https_base (print_addr t.addr) (port_or 8006 port) ++ (lit "/api2/json" ++ path);
          login = authorization (lit "PVEAPIToken=" ++ (cred.username ++ (lit "=" ++ cred.secret)));
        }))

    abbrev pub vms_of : Tried Text → List Related
    vms_of (err e) = []
    vms_of (ok vms_raw) = build_vms vms_raw

    abbrev pub finished : Target → Tried Device → List Related → Collected
    finished t (err e) related = Collector.err (failure (lit "parse proxmox: " ++ e))
    finished t (ok dev) related =
        Collector.ok
          (record { target = t; device = record dev { primary_ip = t.addr }; related = related })

    abbrev pub after_nodes : Target → Credential → Text → Tried Text → Collected
    after_nodes t cred ver_raw (err e) = Collector.err (failure (lit "proxmox nodes: " ++ e))
    after_nodes t cred ver_raw (ok nodes_raw) =
        finished t (build_hypervisor ver_raw nodes_raw)
          (vms_of (get t cred (lit "/cluster/resources?type=vm")))

    abbrev pub after_version : Target → Credential → Tried Text → Collected
    after_version t cred (err e) = Collector.err (failure (lit "proxmox version: " ++ e))
    after_version t cred (ok ver_raw) = after_nodes t cred ver_raw (get t cred (lit "/nodes"))

    abbrev pub with_credential : Target → Option Credential → Collected
    with_credential t none = Collector.err no_credential
    with_credential t (some cred) = after_version t cred (get t cred (lit "/version"))

    -- Collect
    unfoldable pub collect : Target → Collected
    unfolding lit
    collect t = with_credential t (pick_credential t.credentials)
