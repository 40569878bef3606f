-- ===== src/Scan/Credentials.antt =====
-- internal/scan/credentials.go. The conversion of the bytes to a string is a parameter.
use motzworks.Prelude.{◌||◌, List, [], ◌∷◌, Option, none, some, find_first}
use motzworks.Text.{Text, lit, text_eq}
use motzworks.Collector.{Credential}
use motzworks.Store.Targets.{StoredCredential}
use motzworks.Vault
use motzworks.Vault.{Box, Bytes}

abbrev pub unsealed : StoredCredential → Text → Credential
unsealed sc secret = record {
  id = sc.id;
  kind = sc.kind;
  username = sc.username;
  secret = secret;
  extra = sc.extra;
}

module _ (b : Box) (to_text : Bytes → Text) (v : Vault.Vault) where
  abbrev opened : Vault.Outcome Bytes → Option Text
  opened (Vault.err e) = none
  opened (Vault.ok s) = some (to_text s)

  abbrev pub secret_of : Text → Option Text
  secret_of [] = some []
  secret_of (c ∷ sealed) = opened (Vault.open_sealed b v (c ∷ sealed))

  abbrev pub kept : StoredCredential → Option Text → List Credential → List Credential
  kept sc none rest = rest
  kept sc (some secret) rest = unsealed sc secret ∷ rest

  -- DecryptCredentials
  unfoldable pub decrypt_credentials : List StoredCredential → List Credential
  decrypt_credentials [] = []
  decrypt_credentials (sc ∷ stored) =
      kept sc (secret_of sc.secret_sealed) (decrypt_credentials stored)

-- SNMPProbe: the credential of the hook, if there is one.
unfoldable pub snmp_probe : List Credential → Option Credential
unfolding lit
snmp_probe = find_first λ c. text_eq c.kind (lit "snmp-v2c") || text_eq c.kind (lit "snmp-v3")
