-- ===== src/Vault.antt =====
-- internal/vault/vault.go. NaCl secretbox and base64 are parameters (`Box`); the nonce that Seal
-- draws is an argument, and reading random bytes is taken to succeed.
use motzworks.Prelude.{
  ◌↔◌, ℕ, suc, ◌≡◌, ap, refl, false, not, List, [], ◌∷◌, ◌++◌, Option, none, some, arith,
  if◌then◌else◌, nat_eq, ltb, length, length-append, zero,
}
use motzworks.Text.{Text}

abbrev pub Bytes : Type 0
Bytes = List ℕ

abbrev pub key_size : ℕ
key_size = 32

abbrev pub nonce_size : ℕ
nonce_size = 24

-- base64.StdEncoding and secretbox, whose Seal gives the ciphertext that follows the nonce.
pub record Box : Type 0 where
  pub encode : Bytes → Text
  pub decode : Text → Option Bytes
  pub seal_box : Bytes → Bytes → Bytes → Bytes
  pub open_box : Bytes → Bytes → Bytes → Option Bytes

pub record BoxLaws (b : Box) : Type 0 where
  pub decode-encode : (s : Bytes) → b.decode (b.encode s) ≡ some s
  pub open-seal :
      (key nonce msg : Bytes) → b.open_box key nonce (b.seal_box key nonce msg) ≡ some msg

pub data VaultError : Type 0 where
  bad_key_encoding : VaultError
  wrong_key_size : ℕ → VaultError
  bad_encoding too_short decryption_failed key_not_set : VaultError

pub data Outcome {ℓ} (A : Type ℓ) : Type ℓ where
  ok : A → Outcome A
  err : VaultError → Outcome A

pub record Vault : Type 0 where
  pub key : Bytes

abbrev pub take : ℕ → Bytes → Bytes
take zero s = []
take (suc n) [] = []
take (suc n) (c ∷ s) = c ∷ take n s

abbrev pub drop : ℕ → Bytes → Bytes
drop zero s = s
drop (suc n) [] = []
drop (suc n) (c ∷ s) = drop n s

abbrev pub decoded {ℓ} : {A : Type ℓ} → Option Bytes → VaultError → (Bytes → Outcome A) → Outcome A
decoded none e f = err e
decoded (some s) e f = f s

abbrev pub opened : Option Bytes → Outcome Bytes
opened none = err decryption_failed
opened (some s) = ok s

module _ (b : Box) where
  -- New
  unfoldable pub new : Text → Outcome Vault
  new b64key = decoded (b.decode b64key) bad_key_encoding λ raw.
      if not (nat_eq (length raw) key_size)
      then err (wrong_key_size (length raw))
      else ok (record { key = raw })

  -- FromEnv, where the variable holds this text.
  unfoldable pub from_env : Text → Outcome Vault
  from_env [] = err key_not_set
  from_env (c ∷ s) = new (c ∷ s)

  -- Seal: base64(nonce || ciphertext)
  unfoldable pub seal : Vault → Bytes → Bytes → Text
  seal v nonce plaintext = b.encode (nonce ++ b.seal_box v.key nonce plaintext)

  -- Open
  unfoldable pub open_sealed : Vault → Text → Outcome Bytes
  open_sealed v b64 = decoded (b.decode b64) bad_encoding λ sealed.
      if ltb (length sealed) nonce_size
      then err too_short
      else opened (b.open_box v.key (take nonce_size sealed) (drop nonce_size sealed))

pub take-append : (n : ℕ) (s t : Bytes) → length s ≡ n → take n (s ++ t) ≡ s
take-append zero [] t h = refl
take-append zero (c ∷ s) t h = absurd (omega arith)
take-append (suc n) [] t h = absurd (omega arith)
take-append (suc n) (c ∷ s) t h = ap (λ r. c ∷ r) (take-append n s t (omega arith))

pub drop-append : (n : ℕ) (s t : Bytes) → length s ≡ n → drop n (s ++ t) ≡ t
drop-append zero [] t h = refl
drop-append zero (c ∷ s) t h = absurd (omega arith)
drop-append (suc n) [] t h = absurd (omega arith)
drop-append (suc n) (c ∷ s) t h = drop-append n s t (omega arith)

module _ (b : Box) (laws : BoxLaws b) where
  -- If base64 decodes what it encodes and the secret box opens what it sealed, a vault opens every
  -- message that it sealed with a nonce of 24 bytes, and gives the same message.
  pub open_sealed-seal :
      (v : Vault) (nonce msg : Bytes)
      → length nonce ≡ nonce_size
      → open_sealed b v (seal b v nonce msg) ≡ ok msg
  unfolding open_sealed seal
  open_sealed-seal v nonce msg h =
      let c = b.seal_box v.key nonce msg in
      let long : ltb (length (nonce ++ c)) 24 ≡ false = ground (arith, length-append nonce c) in
      rw (
        laws.decode-encode (nonce ++ c),
        long,
        take-append 24 nonce c h,
        drop-append 24 nonce c h,
        laws.open-seal,
      )

-- New succeeds exactly on the base64 of 32 bytes, and keeps those bytes as the key.
pub new_iff :
    (b : Box) (s : Text) (v : Vault)
    → (new b s ≡ ok v) ↔ ((b.decode s ≡ some v.key) × (length v.key ≡ key_size))
unfolding new
new_iff b s v = (λ h. (ground arith, ground arith), λ (e, l). rw e (ground arith))
