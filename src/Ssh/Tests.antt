-- ===== src/Ssh/Tests.antt =====
-- Examples for the theorems on the SSH collector's parsers.
use motzworks.Prelude.{◌≡◌, refl, false, List, [], ◌∷◌, map, All, nat_Eq, contains}
use motzworks.Text.{Text, trim_space, trim, trim_left, is_space}
use motzworks.Ssh.Parse.{software_of, parse_tabbed}
use motzworks.Ssh.Software.{IsEntry, listing, parse_tabbed-listing}

abbrev installed : List (Text × Text)
installed = (b'g' ∷ b'o' ∷ [], b'1' ∷ []) ∷ (b'v' ∷ b'i' ∷ [], b'9' ∷ b'-' ∷ b'1' ∷ []) ∷ []

installed-IsEntry : All IsEntry installed
unfolding trim_space trim trim_left is_space contains
installed-IsEntry = (
  record {
    named = refl;
    no_tab = refl;
    one_line = refl;
    name_trimmed = refl;
    version_trimmed = refl;
    entry_trimmed = refl;
  },
  (
    record {
      named = refl;
      no_tab = refl;
      one_line = refl;
      name_trimmed = refl;
      version_trimmed = refl;
      entry_trimmed = refl;
    },
    tt,
  ),
)

parse_tabbed-listing_example :
    parse_tabbed (listing installed) ≡ map (λ p. software_of p.0 p.1) installed
parse_tabbed-listing_example = parse_tabbed-listing installed installed-IsEntry

abbrev eth : Text
eth = b'e' ∷ b'0' ∷ []

eth_no_at : contains eth b'@' ≡ false
unfolding contains
eth_no_at = refl

eth_no_colon : contains eth b':' ≡ false
unfolding contains
eth_no_colon = refl
