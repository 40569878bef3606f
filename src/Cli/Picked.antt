-- ===== src/Cli/Picked.antt =====
-- cmd/motzworks/scan.go with internal/collector/ssh/ssh.go, internal/collector/snmp/snmp.go and
-- internal/scan/credentials.go: the credentials of the flags are those that the collectors pick.
use motzworks.Prelude.{
  ◌≡◌, refl, subst, ap, ◌∙◌, ◌⊎◌, inl, inr, Bool, true, false, List, [], ◌∷◌, ◌++◌, Option, none,
  some, find_first, Bool-cases, arith, if◌then◌else◌,
}
use motzworks.Text.{Text, lit, is_empty, text_eq}
use motzworks.Collector.{Credential}
use motzworks.Scan.Credentials.{snmp_probe}
use motzworks.Snmp.Collect as Snmp
use motzworks.Ssh.Collect as Ssh
use motzworks.Cli.{
  CredFlags, Checked, ok, err, credential, given, other_credentials, build_credentials,
}

find_given :
    (p : Credential → Bool) (flag : Text) (c : Credential) (rest : List Credential)
    → p c ≡ false
    → find_first p (given flag c ++ rest) ≡ find_first p rest
find_given p flag c rest h = elim (Bool-cases (is_empty flag)) [
  | inl e ↦ simp (e)
  | inr e ↦ simp (e, h)
]

find_given_empty :
    (p : Credential → Bool) (flag : Text) (c : Credential) (rest : List Credential)
    → is_empty flag ≡ true
    → find_first p (given flag c ++ rest) ≡ find_first p rest
find_given_empty p flag c rest e = simp (e)

find_given_last :
    (p : Credential → Bool) (flag : Text) (c : Credential)
    → p c ≡ false
    → find_first p (given flag c) ≡ none
find_given_last p flag c h = elim (Bool-cases (is_empty flag)) [
  | inl e ↦ simp (e)
  | inr e ↦ simp (e, h)
]

abbrev pub kind_and_user : Option Credential → Option (Text × Text)
kind_and_user none = none
kind_and_user (some c) = some (c.kind, c.username)

other_no_ssh : (f : CredFlags) → Ssh.pick_credential (other_credentials f) ≡ none
unfolding Ssh.pick_credential other_credentials lit text_eq
other_no_ssh f =
    find_given _ f.snmp_community _ _ refl
    ∙ find_given _ f.winrm_user _ _ refl
    ∙ find_given _ f.wmi_user _ _ refl
    ∙ find_given _ f.proxmox_token _ _ refl
    ∙ find_given _ f.opnsense_key _ _ refl
    ∙ find_given_last _ f.fortigate_token _ refl

abbrev pub if_given : Text → Credential → Option Credential
if_given flag c = if is_empty flag then none else some c

other_snmp :
    (f : CredFlags)
    → Snmp.pick_credential (other_credentials f)
      ≡ if_given f.snmp_community (credential (lit "snmp-v2c") [] f.snmp_community)
unfolding Snmp.pick_credential other_credentials lit text_eq
other_snmp f = elim (Bool-cases (is_empty f.snmp_community)) [
  | inr e ↦ simp (e)
  | inl e ↦
      find_given_empty _ f.snmp_community _ _ e
      ∙ find_given _ f.winrm_user _ _ refl
      ∙ find_given _ f.wmi_user _ _ refl
      ∙ find_given _ f.proxmox_token _ _ refl
      ∙ find_given _ f.opnsense_key _ _ refl
      ∙ find_given_last _ f.fortigate_token _ refl
      ∙ simp (e)
]

-- What the collectors pick among the credentials.
unfoldable pub IsPicked : CredFlags → List Credential → Type 0
IsPicked f creds =
    (kind_and_user (Ssh.pick_credential creds) ≡ (
      if is_empty f.ssh_user
      then none
      else some ((if is_empty f.ssh_key then lit "ssh-password" else lit "ssh-key"), f.ssh_user)))
    × (Snmp.pick_credential creds
        ≡ if_given f.snmp_community (credential (lit "snmp-v2c") [] f.snmp_community))
    × (snmp_probe creds ≡ Snmp.pick_credential creds)

other-IsPicked : (f : CredFlags) → is_empty f.ssh_user ≡ true → IsPicked f (other_credentials f)
unfolding IsPicked snmp_probe Snmp.pick_credential lit
other-IsPicked f e = (ap kind_and_user (other_no_ssh f) ∙ simp (e), other_snmp f, refl)

password-IsPicked :
    (f : CredFlags)
    → is_empty f.ssh_user ≡ false
    → is_empty f.ssh_key ≡ true
    → IsPicked f (credential (lit "ssh-password") f.ssh_user f.ssh_pass ∷ other_credentials f)
unfolding IsPicked snmp_probe Snmp.pick_credential Ssh.pick_credential lit text_eq
password-IsPicked f e k = (simp (e, k), other_snmp f, refl)

key-IsPicked :
    (f : CredFlags) (key : Text)
    → is_empty f.ssh_user ≡ false
    → is_empty f.ssh_key ≡ false
    → IsPicked f (credential (lit "ssh-key") f.ssh_user key ∷ other_credentials f)
unfolding IsPicked snmp_probe Snmp.pick_credential Ssh.pick_credential lit text_eq
key-IsPicked f key e k = (simp (e, k), other_snmp f, refl)

abbrev ok_or : List Credential → Checked (List Credential) → List Credential
ok_or cs (ok ds) = ds
ok_or cs (err e) = cs

Checked-cases : (c : Checked Text) → ((e : Text) × (c ≡ err e)) ⊎ ((t : Text) × (c ≡ ok t))
Checked-cases (err e) = inl (e, refl)
Checked-cases (ok t) = inr (t, refl)

-- Of the credentials that are built from the flags, the SSH collector picks one with the user of
-- the flags, by key if a key file is given and else by password, and none without a user; the SNMP
-- collector picks the community, or none, and the probe of the discovery the same.
pub build_credentials-IsPicked :
    (read_file : Text → Checked Text) (f : CredFlags) (creds : List Credential)
    → build_credentials read_file f ≡ ok creds
    → IsPicked f creds
unfolding build_credentials
build_credentials-IsPicked read_file f creds h = elim (Bool-cases (is_empty f.ssh_user)) [
  | inl e ↦ subst (IsPicked f) (ap (ok_or []) (rw e at h)) (other-IsPicked f e)
  | inr e ↦ elim (Bool-cases (is_empty f.ssh_key)) [
    | inl k ↦ subst (IsPicked f) (ap (ok_or []) (rw (e, k) at h)) (password-IsPicked f e k)
    | inr k ↦ elim (Checked-cases (read_file f.ssh_key)) [
      | inl (m, r) ↦ absurd (err_ok (rw (e, k, r) at h))
      | inr (key, r) ↦
          subst (IsPicked f) (ap (ok_or []) (rw (e, k, r) at h)) (key-IsPicked f key e k)
    ]
  ]
]
  where
    err_ok : {m : Text} {cs : List Credential} → err m ≡ ok cs → ⊥
    err_ok p = ground arith
