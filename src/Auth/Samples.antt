-- ===== src/Auth/Samples.antt =====
-- Concrete libraries for the examples: a signature, a code of the claims and a sealing of bytes.
use motzworks.Prelude.{
  ℕ, zero, suc, ◌+◌, ◌-◌, ◌≡◌, ◌∙◌, ap, refl, false, List, [], ◌∷◌, ◌++◌, map, Option, some, none,
  arith, nat_Eq, contains, length,
}
use motzworks.Prelude.Int.{ℤ, pos, negsuc}
use motzworks.Text.{Text}
use motzworks.Auth.{Claims, Crypto, CryptoLaws}
use motzworks.Vault
use motzworks.Vault.{Box, BoxLaws, Bytes, take-append, drop-append, take, drop}

-- A code that shifts every byte past the dot.
abbrev pub shift : Bytes → Text
shift = map (λ n. n + 47)

abbrev unshift : Text → Bytes
unshift = map (λ n. n - 47)

unshift-shift : (b : Bytes) → unshift (shift b) ≡ b
unshift-shift [] = refl
unshift-shift (c ∷ b) = rw (unshift-shift b) (ap (λ n. n ∷ b) (omega arith))

shift-no_dot : (b : Bytes) → contains (shift b) b'.' ≡ false
unfolding contains
shift-no_dot [] = refl
shift-no_dot (c ∷ b) = ground (arith, shift-no_dot b)

-- Claims as numbers: the expiry, then the three texts, each after its length.
abbrev pub int_code : ℤ → List ℕ → List ℕ
int_code (pos n) rest = 0 ∷ n ∷ rest
int_code (negsuc n) rest = 1 ∷ n ∷ rest

abbrev pub put_text : Text → List ℕ → List ℕ
put_text s rest = length s ∷ (s ++ rest)

abbrev marshal : Claims → Option Bytes
marshal x =
    some (int_code x.expires (put_text x.user_id (put_text x.username (put_text x.role []))))

abbrev read_text : List ℕ → Text × List ℕ
read_text [] = ([], [])
read_text (n ∷ s) = (take n s, drop n s)

abbrev int_decode : ℕ → ℕ → ℤ
int_decode zero n = pos n
int_decode (suc k) n = negsuc n

abbrev read_claims : ℤ → List ℕ → Claims
read_claims e s =
    let (u, s1) = read_text s in
    let (m, s2) = read_text s1 in
    let (r, s3) = read_text s2 in record { user_id = u; username = m; role = r; expires = e }

abbrev unmarshal : Bytes → Option Claims
unmarshal [] = none
unmarshal (k ∷ []) = none
unmarshal (k ∷ n ∷ s) = some (read_claims (int_decode k n) s)

decode-code : (e : ℤ) (s : List ℕ) → unmarshal (int_code e s) ≡ some (read_claims e s)
decode-code (pos n) s = refl
decode-code (negsuc n) s = refl

read_claims-put :
    (e : ℤ) (u m r : Text)
    → read_claims e (put_text u (put_text m (put_text r [])))
      ≡ record { user_id = u; username = m; role = r; expires = e }
read_claims-put e u m r =
    rw
      (
        drop-append (length u) u (put_text m (put_text r [])) refl,
        take-append (length u) u (put_text m (put_text r [])) refl,
        drop-append (length m) m (put_text r []) refl,
        take-append (length m) m (put_text r []) refl,
        take-append (length r) r [] refl,
      )
      refl

unmarshal-marshal : (x : Claims) → (b : Bytes) × (marshal x ≡ some b) × (unmarshal b ≡ some x)
unmarshal-marshal x = (
  _,
  refl,
  decode-code x.expires _ ∙ ap some (read_claims-put x.expires x.user_id x.username x.role),
)

-- A signature that is the secret and the payload.
abbrev pub crypto : Crypto
crypto = record {
  hmac = λ k p. k ++ p;
  encode = shift;
  decode = λ s. some (unshift s);
  marshal = marshal;
  unmarshal = unmarshal;
}

pub crypto_laws : CryptoLaws crypto
crypto_laws = record {
  decode-encode = λ b. ap some (unshift-shift b);
  no_dot = shift-no_dot;
  marshals = unmarshal-marshal;
}

-- A box that writes the nonce before the message.
abbrev pub box : Box
box = record {
  encode = λ s. s;
  decode = λ s. some s;
  seal_box = λ k n s. n ++ s;
  open_box = λ k n s. some (drop (length n) s);
}

pub box_laws : BoxLaws box
box_laws = record {
  decode-encode = λ s. refl;
  open-seal = λ k n s. ap some (drop-append (length n) n s refl);
}

abbrev pub eight : Bytes
eight = 1 ∷ 2 ∷ 3 ∷ 4 ∷ 5 ∷ 6 ∷ 7 ∷ 8 ∷ []

abbrev pub nonce : Bytes
nonce = eight ++ (eight ++ eight)

abbrev pub vault : Vault.Vault
vault = record { key = eight ++ nonce }
