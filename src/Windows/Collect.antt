-- ===== src/Windows/Collect.antt =====
-- internal/collector/wmi/wmi.go and internal/collector/winrm/winrm.go: Collect. The process of the
-- sidecar and the WinRM client are parameters, with the settings that each gets.
use motzworks.Prelude.{
  ℕ, suc, Bool, true, false, ◌||◌, not, List, [], ◌∷◌, ◌++◌, Option, none, some, find_first,
  if◌then◌else◌, nat_Eq, nat_eq, ◌==◌,
}
use motzworks.Prelude.Int.{ℤ, pos, negsuc}
use motzworks.Text.{Text, lit, text_eq, trim_space, before_byte}
use motzworks.Text.Number.{decimal}
use motzworks.Addr.{Netip, is_valid}
use motzworks.Model.{Device}
use motzworks.Collector.{Credential, Target, CollectError, no_credential, failure, Collected}
use motzworks.Collector
use motzworks.Windows.Winrm.{Json, parse_inventory}
use motzworks.Windows.Wmi.{WmiInventory, wmi_device_of}

-- s[:i] and s[i+1:] for the first index i of a character that passes the test.
abbrev pub onto : ℕ → Option (Text × Text) → Option (Text × Text)
onto c none = none
onto c (some (before, after)) = some (c ∷ before, after)

unfoldable pub split_at : (ℕ → Bool) → Text → Option (Text × Text)
split_at p [] = none
split_at p (c ∷ s) = let rest = split_at p s in if p c then some ([], s) else onto c rest

abbrev pub is_slash : ℕ → Bool
is_slash c = c == 0x5c || c == b'/'

abbrev pub is_at : ℕ → Bool
is_at c = c == b'@'

abbrev pub by_at : Text → Text → Option (Text × Text) → Text × Text
by_at username fallback none = (username, trim_space fallback)
by_at username fallback (some (user, domain)) = (user, domain)

abbrev pub by_slash : Text → Text → Option (Text × Text) → Text × Text
by_slash username fallback none = by_at username fallback (split_at is_at username)
by_slash username fallback (some (domain, user)) = (user, domain)

-- splitDomainUser: the user, then the domain.
unfoldable pub split_domain_user : Text → Text → Text × Text
split_domain_user username fallback =
    let u = trim_space username in by_slash u fallback (split_at is_slash u)

-- oneLine
unfoldable pub one_line : Text → Text
one_line s = before_byte (trim_space s) 10

-- extra["domain"]
abbrev pub value_of : Text → List (Text × Text) → Text
value_of key [] = []
value_of key ((k, v) ∷ extra) = if text_eq k key then v else value_of key extra

-- pickCredential of each collector
unfoldable pub pick_wmi : List Credential → Option Credential
unfolding lit
pick_wmi = find_first (λ cr. text_eq cr.kind (lit "wmi"))

unfoldable pub pick_winrm : List Credential → Option Credential
unfolding lit
pick_winrm = find_first (λ cr. text_eq cr.kind (lit "winrm"))

-- The settings that the sidecar gets in its environment.
pub record Sidecar : Type 0 where
  pub addr : Text
  pub user : Text
  pub password : Text
  pub domain : Text

-- How the sidecar ends: with its output, with an exit code and what it wrote to stderr, or with
-- another error.
pub data Ended : Type 0 where
  output : Text → Ended
  exited : ℤ → Text → Ended
  broken : Text → Ended

-- The decoder's result, or its error.
pub data Decoded (A : Type 0) : Type 0 where
  good : A → Decoded A
  bad : Text → Decoded A

abbrev decimal_ℤ : ℤ → Text
decimal_ℤ (pos n) = decimal n
decimal_ℤ (negsuc n) = b'-' ∷ decimal (suc n)

module _ (net : Netip) (decode : Text → Decoded WmiInventory) (python : Text)
    (sidecar : Sidecar → Ended) where
  abbrev pub wmi_parsed : Target → Decoded WmiInventory → Collected
  wmi_parsed t (bad e) = Collector.err (failure (lit "parse wmi inventory: " ++ e))
  wmi_parsed t (good inv) = Collector.ok (record {
    target = t;
    device = record (wmi_device_of net inv) { primary_ip = t.addr };
    related = [];
  })

  abbrev pub wmi_ended : Target → Ended → Collected
  wmi_ended t (broken e) = Collector.err (
      failure
        (lit "wmi sidecar: " ++ (e ++ (lit " (is " ++ (python ++ lit " + impacket installed?)")))))
  wmi_ended t (exited code stderr) =
      Collector.err
        (failure (lit "wmi sidecar exit " ++ (decimal_ℤ code ++ (lit ": " ++ one_line stderr))))
  wmi_ended t (output stdout) = wmi_parsed t (decode stdout)

  abbrev pub with_wmi : Target → Option Credential → Collected
  with_wmi t none = Collector.err no_credential
  with_wmi t (some cred) =
      let (user, domain) = split_domain_user cred.username (value_of (lit "domain") cred.extra) in
      wmi_ended t (
        sidecar (record {
          addr = net.print_addr t.addr;
          user = user;
          password = cred.secret;
          domain = domain;
        }))

  -- Collect of wmi.go
  unfoldable pub wmi_collect : Target → Collected
  unfolding lit
  wmi_collect t = with_wmi t (pick_wmi t.credentials)

-- The collector's settings.
pub record WinrmSettings : Type 0 where
  pub port : ℕ
  pub use_https : Bool
  pub insecure : Bool
  pub auth : Text
  pub timeout : ℕ

-- The endpoint and the transport of a client.
pub record Endpoint : Type 0 where
  pub host : Text
  pub port : ℕ
  pub use_https : Bool
  pub insecure : Bool
  pub timeout : ℕ
  pub ntlm : Bool
  pub username : Text
  pub password : Text

-- How the script ends: with what it wrote and its exit code, or with an error of the client.
pub data Ran : Type 0 where
  finished : Text → Text → ℤ → Ran
  no_client : Text → Ran
  not_run : Text → Ran

-- Where an address is missing, that of the target.
abbrev pub or_target : Target → Device → Device
or_target t dev = record dev {
  primary_ip = if not (is_valid dev.primary_ip) then t.addr else dev.primary_ip;
}

abbrev is_zero : ℤ → Bool
is_zero (pos ℕ.zero) = true
is_zero n = false

module _ (j : Json) (net : Netip) (decode_error : Text → Text) (c : WinrmSettings)
    (run : Endpoint → Ran) where
  abbrev pub winrm_parsed : Target → Text → Option Device → Collected
  winrm_parsed t stdout none =
      Collector.err (failure (lit "parse inventory: " ++ decode_error stdout))
  winrm_parsed t stdout (some dev) =
      Collector.ok (record { target = t; device = or_target t dev; related = [] })

  abbrev pub winrm_ran : Target → Ran → Collected
  winrm_ran t (no_client e) = Collector.err (failure (lit "winrm client: " ++ e))
  winrm_ran t (not_run e) = Collector.err (failure (lit "winrm run: " ++ e))
  winrm_ran t (finished stdout stderr code) =
      if not (is_zero code)
      then Collector.err
          (failure (lit "powershell exit " ++ (decimal_ℤ code ++ (lit ": " ++ stderr))))
      else winrm_parsed t stdout (parse_inventory j net stdout)

  abbrev pub endpoint : Target → Credential → Endpoint
  endpoint t cred = record {
    host = net.print_addr t.addr;
    port = if nat_eq c.port 0 then (if c.use_https then 5986 else 5985) else c.port;
    use_https = c.use_https;
    insecure = c.insecure;
    timeout = if nat_eq c.timeout 0 then 30_000_000_000 else c.timeout;
    ntlm = not (text_eq c.auth (lit "basic"));
    username = cred.username;
    password = cred.secret;
  }

  abbrev pub with_winrm : Target → Option Credential → Collected
  with_winrm t none = Collector.err no_credential
  with_winrm t (some cred) = winrm_ran t (run (endpoint t cred))

  -- Collect of winrm.go
  unfoldable pub winrm_collect : Target → Collected
  unfolding lit
  winrm_collect t = with_winrm t (pick_winrm t.credentials)
