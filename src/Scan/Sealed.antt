-- ===== src/Scan/Sealed.antt =====
-- Credentials that the vault has sealed.
use motzworks.Prelude.{◌≡◌, ap, refl, false, Option, List, [], ◌∷◌, map, All, length, arith}
use motzworks.Text.{Text, is_empty}
use motzworks.Store.Targets.{StoredCredential}
use motzworks.Scan.Credentials.{unsealed, secret_of, decrypt_credentials}
use motzworks.Vault
use motzworks.Vault.{Box, BoxLaws, Bytes, nonce_size}

-- A credential that is stored with a nonce and a secret.
abbrev pub Item : Type 0
Item = StoredCredential × Bytes × Bytes

module _ (b : Box) (laws : BoxLaws b) (to_text : Bytes → Text) (v : Vault.Vault) where
  abbrev pub stored : Item → StoredCredential
  stored (sc, nonce, secret) = record sc { secret_sealed = Vault.seal b v nonce secret }

  pub record IsSealed (i : Item) : Type 0 where
    pub nonce_fits : length i.1 ≡ nonce_size
    pub sealed : is_empty (Vault.seal b v i.1 i.2) ≡ false

  pub secret_of_sealed :
      (s : Text) (secret : Bytes)
      → is_empty s ≡ false
      → Vault.open_sealed b v s ≡ Vault.ok secret
      → secret_of b to_text v s ≡ Option.some (to_text secret)
  secret_of_sealed [] secret h e = absurd (ground arith)
  secret_of_sealed (c ∷ s) secret h e = rw e refl

  -- Credentials that were sealed by the vault, each with a nonce of 24 bytes, come back all, in
  -- their order and with their secrets, if no sealed text is empty.
  pub decrypt_credentials-seal :
      (items : List Item)
      → All IsSealed items
      → decrypt_credentials b to_text v (map stored items)
        ≡ map (λ i. unsealed i.0 (to_text i.2)) items
  unfolding decrypt_credentials
  decrypt_credentials-seal [] h = refl
  decrypt_credentials-seal ((sc, nonce, secret) ∷ items) (h, hs) =
      rw
        (secret_of_sealed (Vault.seal b v nonce secret) secret h.sealed
          (Vault.open_sealed-seal b laws v nonce secret h.nonce_fits))
        (ap (λ l. unsealed sc (to_text secret) ∷ l) (decrypt_credentials-seal items hs))
