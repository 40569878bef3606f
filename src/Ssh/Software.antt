-- ===== src/Ssh/Software.antt =====
-- What the parsers of the SSH collector make of output in the format they expect.
use motzworks.Prelude.{
  ℕ, ◌≡◌, ◌∙◌, refl, ap, false, List, [], ◌∷◌, ◌++◌, append_assoc, map, arith, All, nat_Eq,
  contains,
}
use motzworks.Text.{
  Text, is_empty, trim_space, trim, trim_left, split, cut-at, trim_suffix, before_byte,
}
use motzworks.Ssh.Parse.{software_of, tabbed, parse_tabbed, normalize_if_name}

split-line :
    (c : ℕ) (l rest : Text) → contains l c ≡ false → split c (l ++ c ∷ rest) ≡ l ∷ split c rest
unfolding split contains
split-line c [] rest h = ground arith
split-line c (d ∷ l) rest h = rw (split-line c l rest (ground arith)) (ground arith)

abbrev pub entry : Text → Text → Text
entry name version = name ++ 9 ∷ version

-- Output of dpkg-query or rpm: an entry on each line.
abbrev pub listing : List (Text × Text) → Text
listing [] = []
listing ((name, version) ∷ rest) = entry name version ++ 10 ∷ listing rest

-- A package as the managers print it: no white space at the ends of its parts, no tab in its name.
pub record IsEntry (p : Text × Text) : Type 0 where
  pub named : is_empty p.0 ≡ false
  pub no_tab : contains p.0 9 ≡ false
  pub one_line : contains (entry p.0 p.1) 10 ≡ false
  pub name_trimmed : trim_space p.0 ≡ p.0
  pub version_trimmed : trim_space p.1 ≡ p.1
  pub entry_trimmed : trim_space (entry p.0 p.1) ≡ entry p.0 p.1

nonempty_entry :
    (name version : Text) → is_empty name ≡ false → is_empty (entry name version) ≡ false
nonempty_entry [] version h = refl
nonempty_entry (c ∷ name) version h = refl

tabbed-entry :
    (name version : Text) (rest : List Text)
    → IsEntry (name, version)
    → tabbed (entry name version ∷ rest) ≡ software_of name version ∷ tabbed rest
unfolding tabbed
tabbed-entry name version rest e =
    rw
      (
        e.entry_trimmed,
        cut-at 9 name version e.no_tab,
        e.name_trimmed,
        e.version_trimmed,
        nonempty_entry name version e.named,
        e.named,
      )
      refl

tabbed_blank : tabbed ([] ∷ []) ≡ []
unfolding tabbed trim_space trim trim_left
tabbed_blank = refl

-- If packages are printed one on a line, as name, tab and version, and if their names are not
-- empty and hold no tab, no newline stands in an entry, and names, versions and entries have no
-- white space at their ends, then parseTabbed reads back the same packages in the same order.
pub parse_tabbed-listing :
    (ps : List (Text × Text))
    → All IsEntry ps
    → parse_tabbed (listing ps) ≡ map (λ p. software_of p.0 p.1) ps
unfolding parse_tabbed split
parse_tabbed-listing [] h = tabbed_blank
parse_tabbed-listing ((name, version) ∷ ps) (e, es) =
    rw (split-line 10 (entry name version) (listing ps) e.one_line) (
      tabbed-entry name version (split 10 (listing ps)) e
      ∙ ap (λ l. software_of name version ∷ l) (parse_tabbed-listing ps es))

trim_suffix-snoc : (c : ℕ) (s : Text) → trim_suffix (s ++ c ∷ []) c ≡ s
unfolding trim_suffix
trim_suffix-snoc c [] = ground arith
trim_suffix-snoc c (d ∷ []) = ground arith
trim_suffix-snoc c (d ∷ e ∷ s) = ap (λ l. d ∷ l) (trim_suffix-snoc c (e ∷ s))

trim_suffix_none : (c : ℕ) (s : Text) → contains s c ≡ false → trim_suffix s c ≡ s
unfolding trim_suffix contains
trim_suffix_none c [] h = refl
trim_suffix_none c (d ∷ []) h = ground arith
trim_suffix_none c (d ∷ e ∷ s) h = ap (λ l. d ∷ l) (trim_suffix_none c (e ∷ s) (ground arith))

before_byte-at : (c : ℕ) (s t : Text) → contains s c ≡ false → before_byte (s ++ c ∷ t) c ≡ s
unfolding before_byte contains
before_byte-at c [] t h = ground arith
before_byte-at c (d ∷ s) t h = ground (arith, before_byte-at c s t)

before_byte_none : (c : ℕ) (s : Text) → contains s c ≡ false → before_byte s c ≡ s
unfolding before_byte contains
before_byte_none c [] h = refl
before_byte_none c (d ∷ s) h = ground (arith, before_byte_none c s)

-- The three tokens by which `ip link` and `ip addr` name an interface (with a peer and a colon,
-- with a colon, and bare) give the same name, if it has neither a colon nor an at sign.
pub normalize_if_name_agrees :
    (name peer : Text)
    → contains name b'@' ≡ false
    → contains name b':' ≡ false
    → (normalize_if_name (name ++ b'@' ∷ (peer ++ b':' ∷ [])) ≡ name)
      × (normalize_if_name (name ++ b':' ∷ []) ≡ name)
      × (normalize_if_name name ≡ name)
unfolding normalize_if_name
normalize_if_name_agrees name peer at colon = (
  rw (← append_assoc name (b'@' ∷ peer) (b':' ∷ []), trim_suffix-snoc b':' (name ++ b'@' ∷ peer))
      (before_byte-at b'@' name peer at),
  rw (trim_suffix-snoc b':' name) (before_byte_none b'@' name at),
  rw (trim_suffix_none b':' name colon) (before_byte_none b'@' name at),
)
