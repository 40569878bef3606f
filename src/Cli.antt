-- ===== src/Cli.antt =====
-- cmd/motzworks/scan.go: the command `scan`, from its parsed flags to the options of the scan. Reading
-- a file is a parameter.
pub mod Picked
pub mod Ports
pub mod Commands
pub mod Account
pub mod Serve
pub mod Ready
mod Tests
use motzworks.Prelude.{
  ℕ, Bool, true, false, ◌||◌, not, List, [], ◌∷◌, ◌++◌, Option, none, some, if◌then◌else◌,
}
use motzworks.Prelude.Int.{ℤ, pos, ltb_ℤ}
use motzworks.Text.{Text, lit, is_empty, trim_space, split}
use motzworks.Text.Number.{atoi}
use motzworks.Collector.{Credential}
use motzworks.Scan.Credentials.{snmp_probe}

pub record CredFlags : Type 0 where
  pub ssh_user : Text
  pub ssh_pass : Text
  pub ssh_key : Text
  pub snmp_community : Text
  pub winrm_user : Text
  pub winrm_pass : Text
  pub wmi_user : Text
  pub wmi_pass : Text
  pub wmi_domain : Text
  pub proxmox_token : Text
  pub proxmox_secret : Text
  pub opnsense_key : Text
  pub opnsense_secret : Text
  pub fortigate_token : Text

abbrev pub credential : Text → Text → Text → Credential
credential kind username secret = record {
  id = [];
  kind = kind;
  username = username;
  secret = secret;
  extra = [];
}

-- `if flag != "" { creds = append(creds, …) }`
abbrev pub given : Text → Credential → List Credential
given flag c = if is_empty flag then [] else c ∷ []

-- What is left, or the error with its message.
pub data Checked (A : Type 0) : Type 0 where
  ok : A → Checked A
  err : Text → Checked A

abbrev pub wmi_extra : Text → List (Text × Text)
wmi_extra domain = if is_empty domain then [] else (lit "domain", domain) ∷ []

-- The credentials after the one of SSH.
unfoldable pub other_credentials : CredFlags → List Credential
unfolding lit
other_credentials f =
    given f.snmp_community (credential (lit "snmp-v2c") [] f.snmp_community)
    ++ (given f.winrm_user (credential (lit "winrm") f.winrm_user f.winrm_pass)
        ++ (given f.wmi_user (record (credential (lit "wmi") f.wmi_user f.wmi_pass) {
          extra = wmi_extra f.wmi_domain;
        })
            ++ (given f.proxmox_token
                  (credential (lit "proxmox-token") f.proxmox_token f.proxmox_secret)
                ++ (given f.opnsense_key
                      (credential (lit "opnsense-api") f.opnsense_key f.opnsense_secret)
                    ++ given f.fortigate_token
                        (credential (lit "fortigate-token") [] f.fortigate_token)))))

abbrev key_credential : CredFlags → Checked Text → Checked (List Credential)
key_credential f (err e) = err (lit "read ssh key: " ++ e)
key_credential f (ok key) = ok (credential (lit "ssh-key") f.ssh_user key ∷ other_credentials f)

-- buildCredentials
unfoldable pub build_credentials : (Text → Checked Text) → CredFlags → Checked (List Credential)
unfolding lit
build_credentials read_file f =
    if is_empty f.ssh_user
    then ok (other_credentials f)
    else if is_empty f.ssh_key
    then ok (credential (lit "ssh-password") f.ssh_user f.ssh_pass ∷ other_credentials f)
    else key_credential f (read_file f.ssh_key)

-- The loop of splitNonEmpty.
unfoldable pub nonempty_parts : List Text → List Text
nonempty_parts [] = []
nonempty_parts (p ∷ ps) =
    let rest = nonempty_parts ps in if is_empty (trim_space p) then rest else trim_space p ∷ rest

-- splitNonEmpty
unfoldable pub split_non_empty : Text → List Text
split_non_empty s = nonempty_parts (split b',' s)

-- A number that Atoi reads and that is a port.
abbrev pub port_of : Option ℤ → Option ℕ
port_of none = none
port_of (some (pos n)) =
    if ltb_ℤ (pos n) (pos 1) || ltb_ℤ (pos 65_535) (pos n) then none else some n
port_of (some n) = none

module _ (quote : Text → Text) where
  abbrev pub onto : Text → Option ℕ → Checked (List ℕ) → Checked (List ℕ)
  onto p none rest = err (lit "invalid port " ++ quote p)
  onto p (some n) (ok ns) = ok (n ∷ ns)
  onto p (some n) (err e) = err e

  -- The loop of parsePorts.
  unfoldable pub ports_of : List Text → Checked (List ℕ)
  ports_of [] = ok []
  ports_of (p ∷ ps) = onto p (port_of (atoi (trim_space p))) (ports_of ps)

  -- parsePorts; no port stands for the default set.
  unfoldable pub parse_ports : Text → Checked (List ℕ)
  parse_ports s = if is_empty (trim_space s) then ok [] else ports_of (split_non_empty s)

-- The options of the scan that are not passed on as they are.
pub record Options : Type 0 where
  pub specs : List Text
  pub credentials : List Credential
  pub tcp_ports : List ℕ
  pub probe : Option Credential

abbrev pub then_check : {A : Type 0} {B : Type 0} → Checked A → (A → Checked B) → Checked B
then_check (err e) f = err e
then_check (ok a) f = f a

module _ (quote : Text → Text) (read_file : Text → Checked Text) {C : Type 0}
    (load : Checked C) where
  -- cmdScan, up to the opening of the database.
  unfoldable pub scan_command : Text → Text → CredFlags → Checked (C × Options)
  unfolding lit
  scan_command targets ports flags =
      if is_empty targets
      then err (lit "scan requires -targets (e.g. -targets 10.0.0.0/24)")
      else then_check load λ cfg. then_check (parse_ports quote ports) λ tcp_ports.
        then_check (build_credentials read_file flags) λ creds. ok (
          cfg,
          record {
            specs = split_non_empty targets;
            credentials = creds;
            tcp_ports = tcp_ports;
            probe = snmp_probe creds;
          },
        )
