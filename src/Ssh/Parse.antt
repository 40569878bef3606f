-- ===== src/Ssh/Parse.antt =====
-- internal/collector/ssh/parse.go. strings.ToLower is a parameter; a Go map is the list of its
-- assignments, the last one first.
use motzworks.Prelude.{
  ℕ, zero, suc, ◌+◌, ◌-◌, ◌%◌, ◌^◌, Bool, true, false, ◌&&◌, ◌||◌, not, List, [], ◌∷◌, Option, none,
  some, length, nat_Eq, ltb, leb, ◌==◌, if◌then◌else◌,
}
use motzworks.Prelude.Int.{ℤ, pos, negsuc, ltb_ℤ, ◌*ℤ◌}
use motzworks.Text.{
  Text, lit, is_empty, text_eq, trim, trim_space, split, cut, fields, join, has_prefix, trim_suffix,
  before_byte,
}
use motzworks.Text.Number.{atoi}
use motzworks.Addr.{invalid, is_valid, Netip, Prefix}
use motzworks.Model.{Interface, Software, UserAccount}

abbrev pub lines : Text → List Text
lines = split 10

-- kv[k]
unfoldable pub lookup : List (Text × Text) → Text → Text
lookup [] k = []
lookup ((k', v) ∷ kv) k = if text_eq k' k then v else lookup kv k

abbrev is_quote : ℕ → Bool
is_quote c = c == 34 || c == 39

unfoldable pub os_pairs : List (Text × Text) → List Text → List (Text × Text)
os_pairs kv [] = kv
os_pairs kv (line ∷ rest) =
    let (k, v, found) = cut b'=' (trim_space line) in
    os_pairs (if found then (k, trim is_quote (trim_space v)) ∷ kv else kv) rest

-- parseOSRelease
unfoldable pub parse_os_release : (Text → Text) → Text → Text × Text × Text
unfolding os_pairs lookup lit
parse_os_release to_lower content =
    let kv = os_pairs [] (lines content) in
    let pretty = lookup kv (lit "PRETTY_NAME") in
    (
      if is_empty pretty then lookup kv (lit "NAME") else pretty,
      lookup kv (lit "VERSION_ID"),
      to_lower (lookup kv (lit "ID")),
    )

abbrev pub software_of : Text → Text → Software
software_of name version = record { name = name; version = version; vendor = []; install_date = [] }

-- parseTabbed
unfoldable pub tabbed : List Text → List Software
tabbed [] = []
tabbed (raw ∷ rest) =
    let line = trim_space raw in
    let (before, ver, found) = cut 9 line in
    let name = trim_space before in
    let more = tabbed rest in
    if is_empty line || is_empty name then more else software_of name (trim_space ver) ∷ more

unfoldable pub parse_tabbed : Text → List Software
parse_tabbed out = tabbed (lines out)

abbrev take {ℓ} : {A : Type ℓ} → ℕ → List A → List A
take zero xs = []
take (suc n) [] = []
take (suc n) (x ∷ xs) = x ∷ take n xs

abbrev drop {ℓ} : {A : Type ℓ} → ℕ → List A → List A
drop zero xs = xs
drop (suc n) [] = []
drop (suc n) (x ∷ xs) = drop n xs

-- parseApk
unfoldable pub apk_package : Text → Software
apk_package line =
    let parts = split b'-' line in
    let n = length parts in
    if leb 3 n
    then software_of (join (b'-' ∷ []) (take (n - 2) parts)) (join (b'-' ∷ []) (drop (n - 2) parts))
    else software_of line []

unfoldable pub apk : List Text → List Software
apk [] = []
apk (raw ∷ rest) =
    let line = trim_space raw in
    let more = apk rest in if is_empty line then more else apk_package line ∷ more

unfoldable pub parse_apk : Text → List Software
parse_apk out = apk (lines out)

-- normalizeIfName
unfoldable pub normalize_if_name : Text → Text
normalize_if_name f = before_byte (trim_suffix f b':') b'@'

abbrev pub second : List Text → Text
second (_ ∷ f ∷ _) = normalize_if_name f
second _ = []

-- The field after the last one that passes the test.
unfoldable pub after_last : (Text → Bool) → Text → List Text → Text
after_last p found [] = found
after_last p found (f ∷ []) = found
after_last p found (f ∷ g ∷ fs) = after_last p (if p f then g else found) (g ∷ fs)

-- parseIPLink
unfoldable pub ip_links : List Text → List Interface
unfolding lit
ip_links [] = []
ip_links (line ∷ rest) =
    let fs = fields (trim_space line) in
    let name = second fs in
    let mac = after_last (λ f. text_eq f (lit "link/ether")) [] fs in
    let more = ip_links rest in
    if is_empty name || text_eq name (lit "lo") || is_empty mac
    then more
    else record { name = name; mac = mac; ip = invalid; speed_mbps = pos 0; vlan = pos 0 } ∷ more

unfoldable pub parse_ip_link : Text → List Interface
parse_ip_link out = ip_links (lines out)

abbrev pub named : Text → List Interface → Bool
named name [] = false
named name (ifc ∷ ifaces) = text_eq ifc.name name || named name ifaces

abbrev pub set_ip : Option Prefix → Interface → Interface
set_ip none ifc = ifc
set_ip (some p) ifc = if is_valid ifc.ip then ifc else record ifc { ip = p.addr }

-- byName[name] is the last interface of that name.
unfoldable pub on_last : Text → (Interface → Interface) → List Interface → List Interface
on_last name f [] = []
on_last name f (ifc ∷ ifaces) =
    if text_eq ifc.name name && not (named name ifaces)
    then f ifc ∷ ifaces
    else ifc ∷ on_last name f ifaces

-- applyIPAddrs
unfoldable pub apply_ip_addrs : Netip → List Interface → List Text → List Interface
unfolding lit
apply_ip_addrs net ifaces [] = ifaces
apply_ip_addrs net ifaces (line ∷ rest) =
    let fs = fields (trim_space line) in
    let cidr = after_last (λ f. text_eq f (lit "inet") || text_eq f (lit "inet6")) [] fs in
    let ifaces' =
      if is_empty cidr
      then ifaces
      else on_last (second fs) (set_ip (net.parse_prefix cidr)) ifaces in
    apply_ip_addrs net ifaces' rest

abbrev pub max_uid : ℤ
max_uid = pos 65000

abbrev pub uid_listed : ℤ → Option ℤ → Bool
uid_listed min_uid none = false
uid_listed min_uid (some (pos zero)) = true
uid_listed min_uid (some uid) = not (ltb_ℤ uid min_uid) && ltb_ℤ uid max_uid

abbrev pub account : List Text → ℤ → Option UserAccount
account (user ∷ _ ∷ uid ∷ _ ∷ full ∷ _ ∷ _ ∷ _) min_uid =
    if uid_listed min_uid (atoi uid)
    then some (record {
      username = user;
      full_name = trim_space (before_byte full b',');
      last_logon = none;
      is_local = true;
    })
    else none
account _ min_uid = none

abbrev pub consed {ℓ} : {A : Type ℓ} → Option A → List A → List A
consed none l = l
consed (some a) l = a ∷ l

-- parsePasswd
unfoldable pub accounts : List Text → ℤ → List UserAccount
accounts [] min_uid = []
accounts (raw ∷ rest) min_uid =
    let line = trim_space raw in
    let more = accounts rest min_uid in
    if is_empty line then more else consed (account (split b':' line) min_uid) more

unfoldable pub parse_passwd : Text → ℤ → List UserAccount
parse_passwd out min_uid = accounts (lines out) min_uid

-- A product of int64 wraps around.
unfoldable pub int64 : ℤ → ℤ
int64 (pos n) = let m = n % 2 ^ 64 in if ltb m (2 ^ 63) then pos m else negsuc (2 ^ 64 - m - 1)
int64 (negsuc n) = let m = n % 2 ^ 64 in if ltb m (2 ^ 63) then negsuc m else pos (2 ^ 64 - m - 1)

abbrev pub kilobytes : Option ℤ → Option ℤ
kilobytes none = none
kilobytes (some kb) = some (int64 (kb *ℤ pos 1024))

abbrev pub mem_value : List Text → Option ℤ
mem_value (_ ∷ kb ∷ _) = kilobytes (atoi kb)
mem_value _ = none

abbrev pub or_else : Option ℤ → ℤ → ℤ
or_else none n = n
or_else (some m) n = m

-- parseMemTotalBytes
unfoldable pub mem_total : List Text → ℤ
unfolding lit
mem_total [] = pos 0
mem_total (line ∷ rest) =
    let more = mem_total rest in
    if has_prefix line (lit "MemTotal:") then or_else (mem_value (fields line)) more else more

unfoldable pub parse_mem_total_bytes : Text → ℤ
parse_mem_total_bytes out = mem_total (lines out)

-- parseCPUInfo: the state is the model name and the number of cores so far.
unfoldable pub cpu_info : Text → ℕ → List Text → Text × ℕ
unfolding lit
cpu_info model cores [] = (model, cores)
cpu_info model cores (line ∷ rest) =
    let (k, val, found) = cut b':' line in
    let key = trim_space k in
    let is_model = text_eq key (lit "model name") || text_eq key (lit "Model") in
    if found && text_eq key (lit "processor")
    then cpu_info model (cores + 1) rest
    else cpu_info (if found && is_model && is_empty model then trim_space val else model) cores rest

unfoldable pub parse_cpu_info : Text → Text × ℕ
parse_cpu_info out = cpu_info [] 0 (lines out)
