-- ===== src/Ssh/Users.antt =====
-- Which accounts parsePasswd reports.
use motzworks.Prelude.{
  ℕ, zero, suc, ◌≡◌, refl, ◌⊎◌, inl, inr, true, List, [], ◌∷◌, Option, none, some, arith, All,
  contains, Bool-cases,
}
use motzworks.Prelude.Int.{ℤ, pos, negsuc, ltb_ℤ, ◌≤ℤ◌}
use motzworks.Text.{Text, is_empty, trim_space, split, text_eq, text_Eq, text_eq_iff}
use motzworks.Text.Number.{atoi}
use motzworks.Model.{UserAccount}
use motzworks.Ssh.Parse.{lines, account, accounts, consed, parse_passwd, uid_listed, max_uid}

abbrev pub field : ℕ → List Text → Text
field n [] = []
field zero (f ∷ fs) = f
field (suc n) (f ∷ fs) = field n fs

-- The account of a line whose number is 0, or at least the minimum and below 65000.
abbrev pub Listed : List Text → ℤ → UserAccount → Type 0
Listed raws min_uid u =
    (raw : Text) × (uid : ℤ) × (contains raws raw ≡ true)
    × (field 0 (split b':' (trim_space raw)) ≡ u.username)
    × (atoi (field 2 (split b':' (trim_space raw))) ≡ some uid)
    × ((uid ≡ pos 0) ⊎ ((min_uid ≤ℤ uid) × (ltb_ℤ uid max_uid ≡ true)))
    × (u.is_local ≡ true)

uid_listed_lem :
    (min_uid : ℤ) (o : Option ℤ)
    → uid_listed min_uid o ≡ true
    → (uid : ℤ) × (o ≡ some uid) × ((uid ≡ pos 0) ⊎ ((min_uid ≤ℤ uid) × (ltb_ℤ uid max_uid ≡ true)))
uid_listed_lem m none h = absurd (ground arith)
uid_listed_lem m (some (pos zero)) h = (pos zero, refl, inl refl)
uid_listed_lem m (some (pos (suc n))) h = (pos (suc n), refl, inr (ground arith, ground arith))
uid_listed_lem m (some (negsuc n)) h = (negsuc n, refl, inr (ground arith, ground arith))

account_lem :
    (fs : List Text) (m : ℤ) (u : UserAccount)
    → account fs m ≡ some u
    → (field 0 fs ≡ u.username) × (uid_listed m (atoi (field 2 fs)) ≡ true) × (u.is_local ≡ true)
account_lem [] m u h = absurd (ground arith)
account_lem (a ∷ []) m u h = absurd (ground arith)
account_lem (a ∷ b ∷ []) m u h = absurd (ground arith)
account_lem (a ∷ b ∷ c ∷ []) m u h = absurd (ground arith)
account_lem (a ∷ b ∷ c ∷ d ∷ []) m u h = absurd (ground arith)
account_lem (a ∷ b ∷ c ∷ d ∷ e ∷ []) m u h = absurd (ground arith)
account_lem (a ∷ b ∷ c ∷ d ∷ e ∷ f ∷ []) m u h = absurd (ground arith)
account_lem (a ∷ b ∷ c ∷ d ∷ e ∷ f ∷ g ∷ fs) m u h = (ground arith, ground arith, ground arith)

account-Listed :
    (raw : Text) (raws : List Text) (m : ℤ) (u : UserAccount)
    → account (split b':' (trim_space raw)) m ≡ some u
    → Listed (raw ∷ raws) m u
unfolding contains
account-Listed raw raws m u h =
    let (name, listed, is_here) = account_lem (split b':' (trim_space raw)) m u h in
    let (uid, e, range) = uid_listed_lem m (atoi (field 2 (split b':' (trim_space raw)))) listed in
    let same : text_eq raw raw ≡ true = (text_eq_iff raw raw).1 refl in
    (raw, uid, rw same refl, name, e, range, is_here)

Listed-cons :
    (raw : Text) (raws : List Text) (m : ℤ) (us : List UserAccount)
    → All (Listed raws m) us
    → All (Listed (raw ∷ raws) m) us
unfolding contains
Listed-cons raw raws m [] h = tt
Listed-cons raw raws m (u ∷ us) ((r, uid, here, name, number, range, is_here), hs) =
    ((r, uid, rw here (ground arith), name, number, range, is_here), Listed-cons raw raws m us hs)

consed-Listed :
    (raw : Text) (raws : List Text) (m : ℤ) (o : Option UserAccount) (us : List UserAccount)
    → account (split b':' (trim_space raw)) m ≡ o
    → All (Listed raws m) us
    → All (Listed (raw ∷ raws) m) (consed o us)
consed-Listed raw raws m none us e h = Listed-cons raw raws m us h
consed-Listed raw raws m (some u) us e h =
    (account-Listed raw raws m u e, Listed-cons raw raws m us h)

accounts-Listed : (raws : List Text) (m : ℤ) → All (Listed raws m) (accounts raws m)
unfolding accounts
accounts-Listed [] m = tt
accounts-Listed (raw ∷ raws) m = elim (Bool-cases (is_empty (trim_space raw))) [
  | inl blank ↦ rw blank (Listed-cons raw raws m _ (accounts-Listed raws m))
  | inr full ↦ rw full (
      consed-Listed raw raws m (account (split b':' (trim_space raw)) m) _ refl
        (accounts-Listed raws m))
]

-- Every account that is reported is local, and comes from a line of the output with its name,
-- whose number is 0, or at least the minimum and below 65000.
pub parse_passwd-Listed :
    (out : Text) (min_uid : ℤ) → All (Listed (lines out) min_uid) (parse_passwd out min_uid)
unfolding parse_passwd
parse_passwd-Listed out m = accounts-Listed (lines out) m
