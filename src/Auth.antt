-- ===== src/Auth.antt =====
-- internal/auth/auth.go: session tokens and roles. HMAC-SHA256, base64url and JSON are parameters
-- (`Crypto`); the clock is the argument `now`. Password hashing only calls bcrypt.
pub mod Samples
use motzworks.Prelude.{
  ℕ, ◌≡◌, refl, true, false, ◌||◌, not, List, ◌∷◌, ◌++◌, Option, none, some, arith, if◌then◌else◌,
  nat_Eq, contains, inl, inr, Option-cases,
}
use motzworks.Prelude.Int.{ℤ, ltb_ℤ}
use motzworks.Text.{Text, lit, text_eq, text_eq_iff, cut, cut-at, is_empty}

pub record Claims : Type 0 where
  pub user_id : Text
  pub username : Text
  pub role : Text
  pub expires : ℤ

-- A byte slice is a list of numbers, as a text is.
abbrev pub Bytes : Type 0
Bytes = List ℕ

pub record Crypto : Type 0 where
  pub hmac : Bytes → Text → Bytes
  pub encode : Bytes → Text
  pub decode : Text → Option Bytes
  pub marshal : Claims → Option Bytes
  pub unmarshal : Bytes → Option Claims

-- base64url decodes what it encodes, and writes no dot; json.Marshal accepts the claims, and
-- json.Unmarshal reads them back.
pub record CryptoLaws (c : Crypto) : Type 0 where
  pub decode-encode : (b : Bytes) → c.decode (c.encode b) ≡ some b
  pub no_dot : (b : Bytes) → contains (c.encode b) b'.' ≡ false
  pub marshals : (x : Claims) → (b : Bytes) × (c.marshal x ≡ some b) × (c.unmarshal b ≡ some x)

pub data TokenError : Type 0 where
  malformed_token malformed_signature invalid_signature malformed_payload bad_claims expired :
      TokenError

pub data Verified : Type 0 where
  ok : Claims → Verified
  err : TokenError → Verified

abbrev pub when_some {ℓ} : {A : Type ℓ} → Option A → TokenError → (A → Verified) → Verified
when_some none e f = err e
when_some (some a) e f = f a

module _ (c : Crypto) (secret : Bytes) where
  -- sign
  unfoldable pub sign : Text → Bytes
  sign payload = c.hmac secret payload

  abbrev token_of : Option Bytes → Option Text
  token_of none = none
  token_of (some payload) = some (c.encode payload ++ b'.' ∷ c.encode (sign (c.encode payload)))

  -- IssueToken; `none` is the error of json.Marshal.
  unfoldable pub issue_token : Claims → Option Text
  issue_token x = token_of (c.marshal x)

  -- VerifyToken
  unfoldable pub verify_token : ℤ → Text → Verified
  verify_token now token =
      let (p, sig, dotted) = cut b'.' token in
      if not dotted
      then err malformed_token
      else when_some (c.decode sig) malformed_signature λ got.
        if not (text_eq (sign p) got)
        then err invalid_signature
        else when_some (c.decode p) malformed_payload λ payload.
          when_some (c.unmarshal payload) bad_claims
            λ x. if ltb_ℤ x.expires now then err expired else ok x

  -- A token that is accepted has a dot, carries after it the signature under the secret of what
  -- stands before it, and its claims have not expired.
  pub verify_token_sound :
      (now : ℤ) (token : Text) (x : Claims)
      → verify_token now token ≡ ok x
      → let (p, sig, dotted) = cut b'.' token in
        (dotted ≡ true) × (c.decode sig ≡ some (c.hmac secret p)) × (ltb_ℤ x.expires now ≡ false)
  unfolding verify_token sign
  verify_token_sound now token x h =
      let (p, sig, dotted) = cut b'.' token in
      elim (Option-cases (c.decode sig)) [
        | inl e ↦ ground arith
        | inr (got, e) ↦ ground (arith, text_eq_iff (c.hmac secret p) got)
      ]

module _ (c : Crypto) (laws : CryptoLaws c) (secret : Bytes) where
  -- If base64url decodes what it encodes and writes no dot, and the claims survive JSON, then a
  -- token can be issued for every claims, and it is accepted with these claims while the time has
  -- not passed their expiry, and refused as expired afterwards.
  pub verify-issue :
      (x : Claims) (now : ℤ)
      → (token : Text) × (issue_token c secret x ≡ some token)
        × (verify_token c secret now token ≡ (if ltb_ℤ x.expires now then err expired else ok x))
  unfolding issue_token verify_token
  verify-issue x now =
      let (b, m, u) = laws.marshals x in
      let p = c.encode b in
      (
        p ++ b'.' ∷ c.encode (sign c secret p),
        rw m,
        rw
            (
              cut-at b'.' p (c.encode (sign c secret p)) (laws.no_dot b),
              laws.decode-encode,
              (text_eq_iff (sign c secret p) (sign c secret p)).1 refl,
              laws.decode-encode b,
              u,
            )
            refl,
      )

abbrev pub role_admin : Text
role_admin = lit "admin"

abbrev pub role_viewer : Text
role_viewer = lit "viewer"

-- NormalizeRole; `none` is the error "invalid role".
unfoldable pub normalize_role : Text → Option Text
unfolding lit
normalize_role role =
    if text_eq role role_admin || text_eq role role_viewer
    then some role
    else if is_empty role
    then some role_viewer
    else none

-- A role that is accepted is normalised to one that stays as it is, and that is admin exactly if
-- the role was the text admin: the empty role is never made admin.
pub normalize_role_range :
    (role r : Text)
    → normalize_role role ≡ some r
    → (normalize_role r ≡ some r) × (text_eq r role_admin ≡ text_eq role role_admin)
unfolding normalize_role
normalize_role_range role r h = ground (
  arith,
  text_eq_iff role role_admin,
  text_eq_iff role role_viewer,
  text_eq_iff r role_admin,
  text_eq_iff r role_viewer,
)
