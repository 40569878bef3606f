-- ===== src/Snmp/Family.antt =====
-- internal/collector/snmp/snmp.go: osFamily.
use motzworks.Prelude.{ℕ, ◌≡◌, refl, true, false, [], ◌∷◌, Bool-cases, inl, inr, arith}
use motzworks.Text.{Text, lit, has_prefix, has_infix}
use motzworks.Snmp.Collect.{family_of, os_family}

infix_of_prefix : (s t : Text) → has_prefix s t ≡ true → has_infix s t ≡ true
unfolding has_infix
infix_of_prefix [] t h = h
infix_of_prefix (c ∷ s) t h = rw h refl

infix_of_tail : (c : ℕ) (s t : Text) → has_infix s t ≡ true → has_infix (c ∷ s) t ≡ true
unfolding has_infix
infix_of_tail c s t h = rw h (ground arith)

-- A text that begins with a character and a word has what the texts that begin with the word have.
infix_after :
    (d : ℕ) (t u : Text)
    → ((r : Text) → has_prefix r t ≡ true → has_infix r u ≡ true)
    → (s : Text) → has_prefix s (d ∷ t) ≡ true
    → has_infix s u ≡ true
unfolding has_prefix
infix_after d t u k [] h = absurd (ground arith)
infix_after d t u k (c ∷ s) h = infix_of_tail c s u (k s (ground arith))

prefix_ios : (s : Text) → has_prefix s (lit "fortios") ≡ true → has_infix s (lit "ios") ≡ true
unfolding lit
prefix_ios = infix_after b'f' (lit "ortios") (lit "ios") (
    infix_after b'o' (lit "rtios") (lit "ios") (
      infix_after b'r' (lit "tios") (lit "ios")
        (infix_after b't' (lit "ios") (lit "ios") (λ r. infix_of_prefix r (lit "ios")))))

infix_ios : (s : Text) → has_infix s (lit "fortios") ≡ true → has_infix s (lit "ios") ≡ true
unfolding has_infix
infix_ios [] h = prefix_ios [] h
infix_ios (c ∷ s) h = elim (Bool-cases (has_prefix (c ∷ s) (lit "fortios"))) [
  | inl p ↦ prefix_ios (c ∷ s) p
  | inr p ↦ infix_of_tail c s (lit "ios") (infix_ios s (rw p at h))
]

-- A description, in lower case, that has the word fortios and none of linux, windows and junos is
-- classified as cisco-ios: the word fortios contains ios, which is tested first.
pub os_family_fortios :
    (to_lower : Text → Text) (s : Text)
    → has_infix (to_lower s) (lit "fortios") ≡ true
    → has_infix (to_lower s) (lit "linux") ≡ false
    → has_infix (to_lower s) (lit "windows") ≡ false
    → has_infix (to_lower s) (lit "junos") ≡ false
    → os_family to_lower s ≡ lit "cisco-ios"
unfolding os_family family_of
os_family_fortios to_lower s h l w j = rw (l, w, j, infix_ios (to_lower s) h) refl
