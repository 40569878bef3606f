-- ===== src/Ssh/Collect.antt =====
-- internal/collector/ssh/profile.go and ssh.go. A run of a command on the target is the function
-- `run`; its commands are named instead of spelled. Dialling and the handshake are one parameter,
-- with the runner of an open session. The nixos profile's parser is a parameter.
use motzworks.Prelude.{
  ℕ, Bool, true, false, ◌&&◌, ◌||◌, List, [], ◌∷◌, Option, none, some, find_first, if◌then◌else◌,
}
use motzworks.Prelude.Int.{ℤ, pos}
use motzworks.Text.{Text, lit, is_empty, text_eq, trim_space, has_infix}
use motzworks.Addr.{Netip}
use motzworks.Model.{Device, DeviceType, linux, mac, no_device, Hardware, Software}
use motzworks.Collector.{Credential, Target, CollectError, no_credential, failure, Collected}
use motzworks.Collector
use motzworks.Ssh.Parse.{
  lines, parse_os_release, parse_tabbed, parse_apk, parse_ip_link, apply_ip_addrs, parse_passwd,
  parse_mem_total_bytes, parse_cpu_info,
}

pub data Command : Type 0 where
  hostname os_release kernel arch uname ip_link ip_addr passwd sys_vendor product_name
        product_serial cpuinfo meminfo dpkg rpm apk nix_store :
      Command

pub record OsFacts : Type 0 where
  pub id : Text
  pub name : Text
  pub version : Text
  pub kernel : Text
  pub arch : Text
  pub uname : Text

-- firstLine
unfoldable pub first_nonempty : List Text → Text
first_nonempty [] = []
first_nonempty (raw ∷ rest) =
    let line = trim_space raw in if is_empty line then first_nonempty rest else line

unfoldable pub first_line : Text → Text
first_line s = first_nonempty (lines s)

-- pickCredential
unfoldable pub pick_credential : List Credential → Option Credential
unfolding lit
pick_credential =
    find_first λ cr. text_eq cr.kind (lit "ssh-password") || text_eq cr.kind (lit "ssh-key")

-- familyFor
unfoldable pub family_for : OsFacts → Text
unfolding lit
family_for f =
    if has_infix f.uname (lit "FreeBSD")
    then lit "freebsd"
    else if has_infix f.uname (lit "Darwin")
    then lit "macos"
    else lit "linux"

-- typeFor
unfoldable pub type_for : OsFacts → DeviceType
unfolding lit
type_for f = if text_eq (family_for f) (lit "macos") then mac else linux

-- What one package manager gives, unless it gives nothing.
abbrev pub packages : Text → (Text → List Software) → List Software → List Software
packages [] parse otherwise = otherwise
packages (c ∷ out) parse otherwise = elim (parse (c ∷ out)) [ [] ↦ otherwise | sw ∷ sws ↦ sw ∷ sws ]

-- genericProfile.Software
unfoldable pub generic_software : (Command → Text) → List Software
generic_software run =
    packages (run dpkg) parse_tabbed
      (packages (run rpm) parse_tabbed (packages (run apk) parse_apk []))

pub data Profile : Type 0 where
  nixos generic : Profile

-- Match
unfoldable pub profile_match : Profile → OsFacts → Bool
unfolding lit
profile_match nixos f = text_eq f.id (lit "nixos")
profile_match generic f = true

-- selectProfile, with the registered profiles
unfoldable pub select_profile : List Profile → OsFacts → Profile
select_profile [] f = generic
select_profile (p ∷ ps) f = if profile_match p f then p else select_profile ps f

abbrev pub profiles : List Profile
profiles = nixos ∷ []

unfoldable pub profile_software :
    (Text → List Software) → Profile → (Command → Text) → List Software
profile_software parse_nix nixos run = parse_nix (run nix_store)
profile_software parse_nix generic run = generic_software run

-- collectHardware
unfoldable pub collect_hardware : (Command → Text) → Option Hardware
collect_hardware run =
    let vendor = first_line (run sys_vendor) in
    let product = first_line (run product_name) in
    let serial = first_line (run product_serial) in
    let (cpu, cores) = parse_cpu_info (run cpuinfo) in
    let ram = parse_mem_total_bytes (run meminfo) in
    if is_empty vendor && is_empty product && is_empty serial && is_empty cpu && is_zero ram
    then none
    else some (record {
      vendor = vendor;
      model = product;
      serial = serial;
      cpu = cpu;
      cpu_cores = pos cores;
      ram_bytes = ram;
    })
  where
    is_zero : ℤ → Bool
    is_zero (pos ℕ.zero) = true
    is_zero n = false

module _ (net : Netip) (to_lower : Text → Text) (parse_nix : Text → List Software)
    (min_uid : ℤ) where
  unfoldable pub os_facts : (Command → Text) → OsFacts
  os_facts run =
      let (name, version, id) = parse_os_release to_lower (run os_release) in
      record {
        id = id;
        name = name;
        version = version;
        kernel = first_line (run kernel);
        arch = first_line (run arch);
        uname = first_line (run uname);
      }

  -- What Collect reads over an open session.
  unfoldable pub inventory : (Command → Text) → Target → Device
  unfolding lit
  inventory run t =
      let facts = os_facts run in
      record no_device {
        device_type = type_for facts;
        hostname = first_line (run hostname);
        primary_ip = t.addr;
        source = lit "ssh";
        interfaces = apply_ip_addrs net (parse_ip_link (run ip_link)) (lines (run ip_addr));
        os = some (record {
          family = family_for facts;
          name = facts.name;
          version = facts.version;
          build = facts.kernel;
          arch = facts.arch;
        });
        hardware = collect_hardware run;
        software = profile_software parse_nix (select_profile profiles facts) run;
        users = parse_passwd (run passwd) min_uid;
      }

  -- An open session, or the error of the key, the dial or the handshake.
  pub data Session : Type 0 where
    connected : (Command → Text) → Session
    refused : Text → Session

  abbrev pub read : Target → Session → Collected
  read t (refused e) = Collector.err (failure e)
  read t (connected run) =
      Collector.ok (record { target = t; device = inventory run t; related = [] })

  abbrev pub with_credential : (Credential → Session) → Target → Option Credential → Collected
  with_credential connect t none = Collector.err no_credential
  with_credential connect t (some cred) = read t (connect cred)

  -- Collect
  unfoldable pub collect : (Credential → Session) → Target → Collected
  collect connect t = with_credential connect t (pick_credential t.credentials)
