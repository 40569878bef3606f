-- ===== src/Discovery/Tests.antt =====
-- Examples for the discovery theorems, on a small parser of addresses.
use motzworks.Prelude.{
  ℕ, ◌+◌, ◌%◌, ◌^◌, ◌≡◌, ◌≢◌, ◌∙◌, refl, Bool, true, false, List, [], ◌∷◌, ◌++◌, ◌&&◌, Option, none,
  some, arith, All, nat_eq, nat_Eq, contains, Distinct, not, ◌||◌, ◌≤◌, length,
}
use motzworks.Prelude.Int.{pos}
use motzworks.Text.{Text, trim_space, text_eq, cut, trim, trim_left, is_space}
use motzworks.Addr.{
  Addr, Family, family_eq_iff, ip4, ip6, addr_Eq, Prefix, Netip, NetipLaws, IsAddr, IsPrefix, is4,
  family_eq, compare_gt, masked, block, bit_len, is_valid, addr_eq, space,
}
use motzworks.Discovery.Expand.{ok, out_of_fuel, parse_range, expand, start, add, ◌>>=◌}
use motzworks.Discovery.Loops.{run_of, add_all}
use motzworks.Discovery.Reference.{
  ZonesAgree, denoted_all, denoted, denoted_cidr, denoted_range, denoted_single, expand-denoted,
}
use motzworks.Discovery.Cover.{covered, expand-covered}
use motzworks.Discovery.Ranges.{IsRange, expand-zones_differ}
use motzworks.Discovery.Probe.{Options, discover}
use motzworks.Discovery.Sweep.{reports, swept_ports, discover-reports}

-- One character is an IPv4 address, a longer text an IPv6 address with the rest as its zone.
abbrev parse : Text → Option Addr
parse [] = none
parse (c ∷ []) = some (record { family = ip4; value = c % 256 })
parse (c ∷ z ∷ zs) = some (record { family = ip6 (z ∷ zs); value = c % 256 })

-- An address, any separator, and a character for a length from 28 to 32.
abbrev parse_net : Text → Option Prefix
parse_net (c ∷ _ ∷ d ∷ []) =
    some (record { addr = record { family = ip4; value = c % 256 }; bits = 28 + d % 5 })
parse_net _ = none

abbrev small : Netip
small = record { parse_addr = parse; parse_prefix = parse_net; print_addr = λ a. a.value ∷ [] }

parse_law : (s : Text) (a : Addr) → parse s ≡ some a → IsAddr a
unfolding is_valid family_eq space
parse_law [] a e = absurd (ground arith)
parse_law (c ∷ []) a e = record { valid = ground arith; in_space = ground arith }
parse_law (c ∷ z ∷ zs) a e = record { valid = ground arith; in_space = ground arith }

parse_net_law : (s : Text) (p : Prefix) → parse_net s ≡ some p → IsPrefix p
unfolding is_valid family_eq space bit_len
parse_net_law [] p e = absurd (ground arith)
parse_net_law (c ∷ []) p e = absurd (ground arith)
parse_net_law (c ∷ z ∷ []) p e = absurd (ground arith)
parse_net_law (c ∷ z ∷ d ∷ []) p e = record {
  addr_ok = record { valid = ground arith; in_space = ground arith };
  zoneless = ground arith;
  bits_fit = ground arith;
}
parse_net_law (c ∷ z ∷ d ∷ x ∷ s) p e = absurd (ground arith)

small_laws : NetipLaws small
small_laws = record { addr_law = parse_law; prefix_law = parse_net_law }

abbrev specs : List Text
specs = (b'8' ∷ b'/' ∷ b'3' ∷ []) ∷ (b'a' ∷ b'-' ∷ b'c' ∷ []) ∷ (b' ' ∷ b'b' ∷ []) ∷ []

abbrev fuel : ℕ
fuel = 2 ^ 128 + 1

specs_agree : All (ZonesAgree small) specs
unfolding trim_space trim trim_left is_space parse_range cut is4 family_eq compare_gt
specs_agree = (
  record { zones = λ lo hi e. ground arith },
  (record { zones = λ lo hi e. ground arith }, (record { zones = λ lo hi e. ground arith }, tt)),
)

expand-denoted_example :
    expand small fuel specs ≡ (do found ← denoted_all small specs; ok (add_all start found).out)
expand-denoted_example = expand-denoted small small_laws fuel specs specs_agree (omega arith)

-- The eight addresses of the prefix, then the range, in which the last spec lies.
abbrev found_addrs : List Addr
found_addrs =
    run_of 8 (record { family = ip4; value = 56 }) ++ run_of 3 (record { family = ip4; value = 97 })

expand_test : expand small fuel specs ≡ ok found_addrs
unfolding denoted_all denoted denoted_cidr denoted_range denoted_single parse_range cut trim_space
    trim trim_left is_space is4 family_eq compare_gt bit_len masked block add_all add contains
    addr_eq run_of
expand_test = expand-denoted_example ∙ refl

expand-covered_example :
    Distinct found_addrs × ((x : Addr) → contains found_addrs x ≡ covered small specs x)
expand-covered_example =
    expand-covered small small_laws fuel specs found_addrs specs_agree (omega arith) expand_test

-- Two zones: "1%a-2%b" in the syntax of this parser.
abbrev two_zones : Text
two_zones = b'1' ∷ b'%' ∷ b'a' ∷ b'-' ∷ b'2' ∷ b'%' ∷ b'b' ∷ []

abbrev in_zone : ℕ → Text → Addr
in_zone n z = record { family = ip6 z; value = n }

two_zones-IsRange : IsRange two_zones
unfolding trim_space trim trim_left is_space contains
two_zones-IsRange = record { nonempty = refl; no_slash = refl; dash = refl }

zones_differ : ◌≢◌ {A = Family} (ip6 (b'%' ∷ b'a' ∷ [])) (ip6 (b'%' ∷ b'b' ∷ []))
unfolding text_eq family_eq
zones_differ e =
    let same = (family_eq_iff (ip6 (b'%' ∷ b'a' ∷ [])) (ip6 (b'%' ∷ b'b' ∷ []))).1 e in cc

expand-zones_differ_example : expand small 1000 (two_zones ∷ []) ≡ out_of_fuel
unfolding trim_space trim trim_left is_space parse_range cut is4 family_eq compare_gt bit_len
expand-zones_differ_example =
    expand-zones_differ small small_laws two_zones two_zones-IsRange (in_zone 49 (b'%' ∷ b'a' ∷ []))
      (in_zone 50 (b'%' ∷ b'b' ∷ [])) refl [] 1000 zones_differ

-- Port 80 answers on the even addresses.
abbrev even : Addr → ℕ → Bool
even a p = nat_eq (a.value % 2) 0 && nat_eq p 80

abbrev options : Options
options = record {
  tcp_ports = [];
  timeout = pos 0;
  concurrency = pos 0;
  rate_per_sec = pos 0;
  jitter = pos 0;
}

abbrev two : Addr
two = record { family = ip4; value = 2 }

-- Only the first job is run.
discover-reports_example :
    let swept = contains found_addrs two && (contains (swept_ports []) 80 && even two 80) in
    let first = discover (λ j. nat_eq j 0) (λ j k. false) even found_addrs options in
    All (λ h. 1 ≤ length h.open_ports) first
    × ((not (reports first two 80) || swept) ≡ true)
    × (reports (discover (λ j. true) (λ j k. false) even found_addrs options) two 80 ≡ swept)
discover-reports_example =
    discover-reports (λ j. nat_eq j 0) (λ j k. false) even options found_addrs two 80
