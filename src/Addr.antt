-- ===== src/Addr.antt =====
-- net/netip, as far as the program uses it: an address is a family (with the zone of an IPv6
-- address) and a number; `invalid` is Go's zero value netip.Addr{}. The parsers and printers of
-- addresses are parameters (`Netip`), with what the program relies on as `NetipLaws`.
pub mod Blocks
use motzworks.Prelude.{
  ℕ, ◌+◌, ◌-◌, ◌/◌, ◌%◌, ◌^◌, ◌≤◌, ◌<◌, ◌≡◌, refl, ◌↔◌, Bool, true, false, ◌&&◌, ◌||◌, not, Option,
  none, some, List, [], ◌∷◌, arith, ltb, leb, Eq, nat_Eq, ◌==◌, if◌then◌else◌, nat_eq,
}
use motzworks.Text.{Text, text_eq, text_eq_iff}

pub data Family : Type 0 where
  unset : Family
  ip4 : Family
  ip6 : Text → Family

pub record Addr : Type 0 where
  pub family : Family
  pub value : ℕ

unfoldable pub family_eq : Family → Family → Bool
family_eq unset unset = true
family_eq unset ip4 = false
family_eq unset (ip6 z) = false
family_eq ip4 unset = false
family_eq ip4 ip4 = true
family_eq ip4 (ip6 z) = false
family_eq (ip6 z) unset = false
family_eq (ip6 z) ip4 = false
family_eq (ip6 z) (ip6 z') = text_eq z z'

pub family_eq_iff : (f g : Family) → (family_eq f g ≡ true) ↔ (f ≡ g)
unfolding family_eq
family_eq_iff unset unset = ground arith
family_eq_iff unset ip4 = ground arith
family_eq_iff unset (ip6 z) = ground arith
family_eq_iff ip4 unset = ground arith
family_eq_iff ip4 ip4 = ground arith
family_eq_iff ip4 (ip6 z) = ground arith
family_eq_iff (ip6 z) unset = ground arith
family_eq_iff (ip6 z) ip4 = ground arith
family_eq_iff (ip6 z) (ip6 z') = ground (arith, text_eq_iff z z')

-- `a == b` on addresses.
unfoldable pub addr_eq : Addr → Addr → Bool
addr_eq a b = family_eq a.family b.family && nat_eq a.value b.value

pub addr_eq_iff : (a b : Addr) → (addr_eq a b ≡ true) ↔ (a ≡ b)
unfolding addr_eq
addr_eq_iff a b = ground (arith, family_eq_iff a.family b.family)

instance abbrev pub addr_Eq : Eq Addr
addr_Eq = record { beq = addr_eq; beq_iff = addr_eq_iff }

abbrev pub invalid : Addr
invalid = record { family = unset; value = 0 }

-- Addr.IsValid
unfoldable pub is_valid : Addr → Bool
is_valid a = not (family_eq a.family unset)

-- Addr.BitLen
unfoldable pub bit_len : Family → ℕ
bit_len unset = 0
bit_len ip4 = 32
bit_len (ip6 z) = 128

-- How many numbers a family has; the zero value counts in 128 bits.
unfoldable pub space : Family → ℕ
space unset = 2 ^ 128
space ip4 = 2 ^ 32
space (ip6 z) = 2 ^ 128

-- Addr.Next: the zero value after the last address.
unfoldable pub next : Addr → Addr
unfolding space
next a = if a.value + 1 == space a.family then invalid else record a { value = a.value + 1 }

-- Addr.Is4
unfoldable pub is4 : Addr → Bool
unfolding family_eq
is4 a = family_eq a.family ip4

abbrev pub zone : Family → Text
zone unset = []
zone ip4 = []
zone (ip6 z) = z

-- strings.Compare(s, t) > 0
text_gt : Text → Text → Bool
text_gt [] t = false
text_gt (c ∷ s) [] = true
text_gt (c ∷ s) (d ∷ t) = ltb d c || (nat_eq c d && text_gt s t)

-- lo.Compare(hi) > 0: by the length in bits, the number, then the zone.
unfoldable pub compare_gt : Addr → Addr → Bool
unfolding bit_len text_gt
compare_gt a b =
    ltb (bit_len b.family) (bit_len a.family)
    || (nat_eq (bit_len a.family) (bit_len b.family)
        && (ltb b.value a.value
            || (nat_eq a.value b.value && text_gt (zone a.family) (zone b.family))))

pub record Prefix : Type 0 where
  pub addr : Addr
  pub bits : ℕ

-- The number of addresses in the prefix.
unfoldable pub block : Prefix → ℕ
unfolding bit_len
block p = 2 ^ (bit_len p.addr.family - p.bits)

abbrev pub without_zone : Family → Family
without_zone unset = unset
without_zone ip4 = ip4
without_zone (ip6 z) = ip6 []

-- Prefix.Masked
unfoldable pub masked : Prefix → Prefix
unfolding block
masked p = record p {
  addr = record {
    family = without_zone p.addr.family;
    value = p.addr.value - p.addr.value % block p;
  };
}

abbrev pub no_zone : Family → Bool
no_zone unset = true
no_zone ip4 = true
no_zone (ip6 []) = true
no_zone (ip6 (c ∷ z)) = false

-- Prefix.Contains, for a prefix that is valid.
unfoldable pub prefix_contains : Prefix → Addr → Bool
unfolding bit_len block
prefix_contains p a =
    no_zone a.family
    && not (nat_eq (bit_len p.addr.family) 0)
    && nat_eq (bit_len p.addr.family) (bit_len a.family)
    && nat_eq (a.value / block p) (p.addr.value / block p)

-- netip.ParseAddr, netip.ParsePrefix and Addr.String.
pub record Netip : Type 0 where
  pub parse_addr : Text → Option Addr
  pub parse_prefix : Text → Option Prefix
  pub print_addr : Addr → Text

-- What is parsed is valid and within its family; a prefix has no zone.
pub record IsAddr (a : Addr) : Type 0 where
  pub valid : is_valid a ≡ true
  pub in_space : a.value < space a.family

pub record IsPrefix (p : Prefix) : Type 0 where
  pub addr_ok : IsAddr p.addr
  pub zoneless : no_zone p.addr.family ≡ true
  pub bits_fit : p.bits ≤ bit_len p.addr.family

pub record NetipLaws (n : Netip) : Type 0 where
  pub addr_law : (s : Text) (a : Addr) → n.parse_addr s ≡ some a → IsAddr a
  pub prefix_law : (s : Text) (p : Prefix) → n.parse_prefix s ≡ some p → IsPrefix p
