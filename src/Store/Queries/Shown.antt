-- ===== src/Store/Queries/Shown.antt =====
-- What the rows of a stored device (internal/store/devices.go) read as in internal/store/queries.go.
use motzworks.Prelude.{
  ℕ, ◌≡◌, refl, ap, ◌∙◌, inl, inr, Bool, true, List, [], ◌∷◌, map, Option, none, some, arith,
  find_first, if◌then◌else◌, Bool-cases,
}
use motzworks.Prelude.Int.{ℤ, pos, negsuc}
use motzworks.Text.{Text, is_empty}
use motzworks.Addr.{Addr, is_valid}
use motzworks.Model.{Device, OsInfo, Hardware, Interface, Software, UserAccount}
use motzworks.Store.Db.{mapped_or_blank, null_str, null_int, null_ip, OsRow, HardwareRow, Server}
use motzworks.Store.Upsert.{interface_row, software_row, user_row}
use motzworks.Store.Runs.{os_after}
use motzworks.Store.Stored.{hardware_after, put_self}
use motzworks.Store.Rescan.{null_str_back}
use motzworks.Store.Queries.Devices.{OsDto, HardwareDto, IfaceDto, SoftwareDto, UserDto, optional}
use motzworks.Store.Queries.Tables.{
  View, iface_dto, software_dto, user_dto, os_dto, hardware_dto, instant, found, or_zero,
}

-- What is shown of the parts of a device.
abbrev pub shown_software : Software → SoftwareDto
shown_software s = record { name = s.name; version = s.version; vendor = s.vendor }

abbrev pub shown_user : UserAccount → UserDto
shown_user u = record {
  username = u.username;
  full_name = u.full_name;
  last_logon = instant u.last_logon;
  is_local = u.is_local;
}

abbrev pub shown_os : OsInfo → OsDto
shown_os os = record {
  family = os.family;
  name = os.name;
  version = os.version;
  build = os.build;
  arch = os.arch;
}

abbrev pub shown_hardware : Hardware → HardwareDto
shown_hardware h = record {
  vendor = h.vendor;
  model = h.model;
  serial = h.serial;
  cpu = h.cpu;
  cpu_cores = h.cpu_cores;
  ram_bytes = h.ram_bytes;
}

-- What the scan reports, or else what was stored before.
abbrev pub reported_or {ℓ} : {A : Type ℓ} → Option A → Option A → Option A
reported_or none before = before
reported_or (some a) before = some a

abbrev pub mapped {ℓ κ} : {A : Type ℓ} {B : Type κ} → (A → B) → Option A → Option B
mapped f none = none
mapped f (some a) = some (f a)

pub null_int_back : (n : ℤ) → or_zero (null_int n) ≡ n
unfolding null_int
null_int_back (pos ℕ.zero) = refl
null_int_back (pos (ℕ.suc n)) = refl
null_int_back (negsuc n) = refl

mapped_null :
    (f : Text → Text) (s : Text) → mapped_or_blank f (null_str s) ≡ (if is_empty s then [] else f s)
unfolding null_str
mapped_null f [] = refl
mapped_null f (c ∷ s) = refl

pub map-map {ℓ κ μ} :
    {A : Type ℓ} {B : Type κ} {C : Type μ} (f : A → B) (g : B → C) (h : A → C)
    → ((a : A) → g (f a) ≡ h a)
    → (l : List A) → map g (map f l) ≡ map h l
map-map f g h e [] = refl
map-map f g h e (a ∷ l) = rw (e a, map-map f g h e l) refl

module _ (sv : Server) (v : View) where
  abbrev pub shown_interface : Interface → IfaceDto
  shown_interface i = record {
    name = i.name;
    mac = if is_empty i.mac then [] else v.mac_text i.mac;
    ip = if is_valid i.ip then v.host (sv.print_addr i.ip) else [];
    speed_mbps = i.speed_mbps;
  }

  shown_ip :
      (a : Addr)
      → mapped_or_blank v.host (null_ip sv a)
        ≡ (if is_valid a then v.host (sv.print_addr a) else [])
  unfolding null_ip
  shown_ip a = elim (Bool-cases (is_valid a)) [ inl e ↦ rw e | inr e ↦ rw e ]

  module _ (d : Device) where
    pub iface_dto-row : (i : Interface) → iface_dto v (interface_row sv d i) ≡ shown_interface i
    unfolding interface_row
    iface_dto-row i =
        rw
          (
            null_str_back i.name,
            mapped_null v.mac_text i.mac,
            null_int_back i.speed_mbps,
            shown_ip i.ip,
          )
          refl

    pub software_dto-row : (s : Software) → software_dto (software_row sv d s) ≡ shown_software s
    unfolding software_row
    software_dto-row s = rw (null_str_back s.version, null_str_back s.vendor) refl

    pub user_dto-row : (u : UserAccount) → user_dto (user_row sv d u) ≡ shown_user u
    unfolding user_row
    user_dto-row u = rw (null_str_back u.full_name) refl

pub optional-found :
    {A : Type 0} {B : Type 0} (f : A → B) (o : Option A) → optional (found f o) ≡ some (mapped f o)
optional-found f none = refl
optional-found f (some a) = refl

pub os_read :
    (os : Option OsInfo) (id : Text) (t : Text → Option OsRow)
    → mapped os_dto (os_after os id t id) ≡ reported_or (mapped shown_os os) (mapped os_dto (t id))
os_read none id t = refl
os_read (some os) id t =
    ap (mapped os_dto) (put_self id _ t)
    ∙ rw
        (
          null_str_back os.family,
          null_str_back os.name,
          null_str_back os.version,
          null_str_back os.build,
          null_str_back os.arch,
        )
        refl

pub hardware_read :
    (h : Option Hardware) (id : Text) (t : Text → Option HardwareRow)
    → mapped hardware_dto (hardware_after h id t id)
      ≡ reported_or (mapped shown_hardware h) (mapped hardware_dto (t id))
hardware_read none id t = refl
hardware_read (some h) id t =
    ap (mapped hardware_dto) (put_self id _ t)
    ∙ rw
        (
          null_str_back h.vendor,
          null_str_back h.model,
          null_str_back h.serial,
          null_str_back h.cpu,
          null_int_back h.cpu_cores,
          null_int_back h.ram_bytes,
        )
        refl

pub found_passes {ℓ} :
    {A : Type ℓ} (p : A → Bool) (l : List A) (a : A) → find_first p l ≡ some a → p a ≡ true
found_passes p [] a h = cc
found_passes p (x ∷ l) a h = elim (Bool-cases (p x)) [
  | inl e ↦ ground (arith, found_passes p l a)
  | inr e ↦ found_passes p l a (rw e at h)
]
