-- ===== src/Api/Admin/Secrets.antt =====
-- internal/api/handlers_admin.go, internal/vault/vault.go and internal/scan/credentials.go: where the
-- secret of a credential goes.
use mathlib.Core.List.{Perm}
use mathlib.Core.List.Perm
use mathlib.Core.List
use motzworks.Prelude.{
  ◌≡◌, ◌∙◌, refl, ap, false, ◌||◌, List, [], ◌∷◌, ◌++◌, Option, none, some, Bool-cases,
  Option-cases, inl, inr, length,
}
use motzworks.Text.{Text, lit, is_empty}
use motzworks.Auth.{Claims}
use motzworks.Vault
use motzworks.Vault.{Bytes, Box, BoxLaws, nonce_size}
use motzworks.Collector.{Credential}
use motzworks.Scan.Credentials.{decrypt_credentials, secret_of, unsealed}
use motzworks.Scan.Sealed.{secret_of_sealed}
use motzworks.Store.Targets.{StoredCredential, OrdersLaws, create_credential, list_credentials}
use motzworks.Store.Accounts.{Value, word}
use motzworks.Api.Site.{
  Request, Site, Server, CredentialBody, World, good, put_credential, read_json, audit, add_entry,
  client_ip, insert_audit_entry,
}
use motzworks.Api.Admin.{handle_create_credential, sealed_or_empty, unless_failed, scan_options}

module _ (b : Box) (to_text : Bytes → Text) (v : Vault.Vault) where
  abbrev revealed : StoredCredential → Option Text → Option Credential
  revealed sc none = none
  revealed sc (some secret) = some (unsealed sc secret)

  abbrev credential_of : StoredCredential → Option Credential
  credential_of sc = revealed sc (secret_of b to_text v sc.secret_sealed)

  decrypt_credentials-filter_map :
      (stored : List StoredCredential)
      → decrypt_credentials b to_text v stored ≡ List.filter_map credential_of stored
  unfolding decrypt_credentials List.filter_map
  decrypt_credentials-filter_map [] = refl
  decrypt_credentials-filter_map (sc ∷ stored) =
      elim (Option-cases (secret_of b to_text v sc.secret_sealed)) [
        | inl sealed ↦ rw sealed (decrypt_credentials-filter_map stored)
        | inr (secret, e) ↦
            rw e (ap (λ l. unsealed sc secret ∷ l) (decrypt_credentials-filter_map stored))
      ]

  -- The same rows in another order give the same credentials in another order.
  decrypt_credentials-Perm :
      {xs ys : List StoredCredential}
      → Perm xs ys
      → Perm (decrypt_credentials b to_text v xs) (decrypt_credentials b to_text v ys)
  decrypt_credentials-Perm {xs} {ys} h =
      rw (decrypt_credentials-filter_map xs, decrypt_credentials-filter_map ys)
        (Perm.filter_map credential_of h)

  decrypt_credentials-snoc :
      (xs : List StoredCredential) (sc : StoredCredential) (secret : Text)
      → secret_of b to_text v sc.secret_sealed ≡ some secret
      → decrypt_credentials b to_text v (xs ++ sc ∷ [])
        ≡ decrypt_credentials b to_text v xs ++ unsealed sc secret ∷ []
  unfolding decrypt_credentials
  decrypt_credentials-snoc [] sc secret e = rw e refl
  decrypt_credentials-snoc (x ∷ xs) sc secret e =
      rw (decrypt_credentials-snoc xs sc secret e)
        (elim (Option-cases (secret_of b to_text v x.secret_sealed)) [
          | inl sealed ↦ rw sealed refl
          | inr (s, opens) ↦ rw opens refl
        ])

module _ (srv : Server) (w : World) (c : Claims) where
  -- Requests to create a credential whose bodies decode and differ in the secret alone get the
  -- same response and leave the same audit log, accounts, targets, schedules and scans.
  pub handle_create_credential_secret :
      (r : Request) (s : Site) (body other : Text) (req : CredentialBody) (secret : Text)
      → w.decode_credential body ≡ good req
      → w.decode_credential other ≡ good (record req { secret = secret })
      → let a = handle_create_credential srv w c (record r { body = body }) s in
        let b = handle_create_credential srv w c (record r { body = other }) s in
        (a.1 ≡ b.1)
        × (a.0 ≡ record b.0 { tables = a.0.tables })
        × (a.0.tables ≡ record b.0.tables { credential = a.0.tables.credential })
  unfolding handle_create_credential read_json unless_failed audit add_entry create_credential
      client_ip
  handle_create_credential_secret r s body other req secret d e =
      elim (Bool-cases (is_empty req.name || is_empty req.kind)) [
        | inl h ↦ rw (d, e, h) (refl, refl, refl)
        | inr h ↦ elim (Bool-cases (w.fails put_credential)) [
          | inl f ↦ rw (d, e, h, f) (refl, refl, refl)
          | inr f ↦ elim (Bool-cases (w.fails insert_audit_entry)) [
            | inl g ↦ rw (d, e, h, f, g) (refl, refl, refl)
            | inr g ↦ rw (d, e, h, f, g) (refl, refl, refl)
          ]
        ]
      ]

  audit_tables :
      (action target : Text) (r : Request) (detail : List (Text × Value)) (s : Site)
      → (audit w c action target r detail s).tables ≡ s.tables
  unfolding audit add_entry
  audit_tables action target r detail s = elim (Bool-cases (w.fails insert_audit_entry)) [
    | inl g ↦ rw g refl
    | inr g ↦ rw g refl
  ]

  secret_of_new :
      (laws : BoxLaws w.box) (secret : Text)
      → length w.nonce ≡ nonce_size
      → w.to_text (w.to_bytes secret) ≡ secret
      → is_empty (Vault.seal w.box w.vault w.nonce (w.to_bytes secret)) ≡ false
      → secret_of w.box w.to_text w.vault (sealed_or_empty srv w secret) ≡ some secret
  secret_of_new laws [] n t q = refl
  secret_of_new laws (x ∷ secret) n t q =
      secret_of_sealed w.box laws w.to_text w.vault _ _ q
        (Vault.open_sealed-seal w.box laws w.vault w.nonce (w.to_bytes (x ∷ secret)) n)
      ∙ ap (λ v. some v) t

  -- If base64 decodes what it encodes, the secret box opens what it sealed, ORDER BY only
  -- reorders, the body decodes to a credential with a name and a kind, the call of the store
  -- succeeds, the nonce has 24 bytes, the conversions of the secret to bytes and back agree, and
  -- its sealed text is not empty, then the credentials of the next scan are, up to their order,
  -- those of a scan before and the one that was created, with the secret that was sent.
  pub scan_options-handle_create_credential :
      (laws : BoxLaws w.box) (orders : OrdersLaws w.orders) (r : Request) (s : Site)
      (req : CredentialBody)
      → w.decode_credential r.body ≡ good req
      → (is_empty req.name || is_empty req.kind) ≡ false
      → w.fails put_credential ≡ false
      → length w.nonce ≡ nonce_size
      → w.to_text (w.to_bytes req.secret) ≡ req.secret
      → is_empty (Vault.seal w.box w.vault w.nonce (w.to_bytes req.secret)) ≡ false
      → (specs : List Text)
      → Perm (scan_options srv w specs (handle_create_credential srv w c r s).0).credentials (
          (scan_options srv w specs s).credentials
          ++ record {
            id = w.new_id;
            kind = req.kind;
            username = req.username;
            secret = req.secret;
            extra = req.extra;
          }
            ∷ [])
  unfolding handle_create_credential read_json unless_failed create_credential list_credentials
      scan_options
  scan_options-handle_create_credential laws orders r s req d h f n t q specs =
      let made : StoredCredential = record {
        id = w.new_id;
        name = req.name;
        kind = req.kind;
        username = req.username;
        secret_sealed = sealed_or_empty srv w req.secret;
        extra = req.extra;
      } in
      let old = s.tables.credential in
      let tables =
        audit_tables (lit "create_credential") req.name r
          ((lit "kind", word req.kind) ∷ (lit "username", word req.username) ∷ [])
          (record s { tables = record s.tables { credential = old ++ made ∷ [] } }) in
      let snoc =
        decrypt_credentials-snoc w.box w.to_text w.vault old made req.secret
          (secret_of_new laws req.secret n t q) in
      let added =
        decrypt_credentials-Perm w.box w.to_text w.vault
          (orders.credentials_law (old ++ made ∷ [])) in
      let before = decrypt_credentials-Perm w.box w.to_text w.vault (orders.credentials_law old) in
      rw (d, h, f, tables)
        (Perm.trans (rw snoc at added)
          (Perm.append_right (unsealed made req.secret ∷ []) (Perm.symm before)))
