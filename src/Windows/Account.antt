-- ===== src/Windows/Account.antt =====
-- The three spellings of an account: splitDomainUser of internal/collector/wmi/wmi.go.
use motzworks.Prelude.{ℕ, ◌≡◌, refl, Bool, true, false, [], ◌∷◌, ◌++◌, All, none, some}
use motzworks.Text.{Text, trim_space}
use motzworks.Windows.Collect.{split_at, is_slash, is_at, split_domain_user}

split_at-none : (p : ℕ → Bool) (s : Text) → All (λ c. p c ≡ false) s → split_at p s ≡ none
unfolding split_at
split_at-none p [] h = refl
split_at-none p (c ∷ s) (e, h) = rw (e, split_at-none p s h) refl

split_at-first :
    (p : ℕ → Bool) (s : Text) (c : ℕ) (t : Text)
    → All (λ c. p c ≡ false) s
    → p c ≡ true
    → split_at p (s ++ c ∷ t) ≡ some (s, t)
unfolding split_at
split_at-first p [] c t h e = rw e
split_at-first p (d ∷ s) c t (f, h) e = rw (f, split_at-first p s c t h e) refl

All-append :
    (p : ℕ → Bool) (s t : Text)
    → All (λ c. p c ≡ false) s
    → All (λ c. p c ≡ false) t
    → All (λ c. p c ≡ false) (s ++ t)
All-append p [] t hs ht = ht
All-append p (c ∷ s) t (e, hs) ht = (e, All-append p s t hs ht)

-- A name without slashes and at signs.
pub record IsPlain (s : Text) : Type 0 where
  pub no_slash : All (λ c. is_slash c ≡ false) s
  pub no_at : All (λ c. is_at c ≡ false) s

-- If a user and a domain hold no slash of either kind and no at sign, and no spelling of them has
-- white space at its ends, then domain\user, domain/user and user@domain all give the user and the
-- domain, whatever domain is set separately, and the user alone gives the domain that is, trimmed.
pub split_domain_user-spellings :
    (user domain fallback : Text)
    → IsPlain user
    → IsPlain domain
    → trim_space (domain ++ 0x5c ∷ user) ≡ domain ++ 0x5c ∷ user
    → trim_space (domain ++ b'/' ∷ user) ≡ domain ++ b'/' ∷ user
    → trim_space (user ++ b'@' ∷ domain) ≡ user ++ b'@' ∷ domain
    → trim_space user ≡ user
    → (split_domain_user (domain ++ 0x5c ∷ user) fallback ≡ (user, domain))
      × (split_domain_user (domain ++ b'/' ∷ user) fallback ≡ (user, domain))
      × (split_domain_user (user ++ b'@' ∷ domain) fallback ≡ (user, domain))
      × (split_domain_user user fallback ≡ (user, trim_space fallback))
unfolding split_domain_user
split_domain_user-spellings user domain fallback u d t1 t2 t3 t4 = (
  rw (t1, split_at-first is_slash domain 0x5c user d.no_slash refl) refl,
  rw (t2, split_at-first is_slash domain b'/' user d.no_slash refl) refl,
  rw
      (
        t3,
        split_at-none is_slash (user ++ b'@' ∷ domain)
            (All-append is_slash user (b'@' ∷ domain) u.no_slash (refl, d.no_slash)),
        split_at-first is_at user b'@' domain u.no_at refl,
      )
      refl,
  rw (t4, split_at-none is_slash user u.no_slash, split_at-none is_at user u.no_at) refl,
)
