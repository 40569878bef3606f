-- ===== src/Discovery/Cover.antt =====
-- Which addresses `Expand` returns: those that some spec covers, each once.
use native.Mathlib.Nat.{div-lt_iff_lt-mul, mod-add-div', lt-div-mul-add, le-div_iff_mul-le}
use motzworks.Prelude.{
  ℕ, zero, suc, ◌+◌, ◌-◌, ◌*◌, ◌/◌, ◌%◌, ◌≤◌, ◌<◌, ◌≡◌, refl, sym, ◌∙◌, ◌≢◌, inl, inr, Bool, true,
  false, ◌&&◌, ◌||◌, not, List, [], ◌∷◌, All, arith, nat_Eq, ltb, leb, contains, contains-append,
  contains-snoc, Distinct, Distinct-snoc, Bool-cases, nat_eq, Option, none, some, Option-cases,
  if◌then◌else◌,
}
use motzworks.Text.{Text, trim_space, is_empty, cut, text_eq}
use motzworks.Addr.{
  Family, unset, ip4, ip6, Addr, addr_eq, addr_eq_iff, addr_Eq, bit_len, no_zone, without_zone,
  Prefix, block, masked, prefix_contains, family_eq, Netip, NetipLaws, IsPrefix,
}
use motzworks.Addr.Blocks.{IsBlock, pos_block, masked-IsBlock, block-masked}
use motzworks.Discovery.Expand.{
  Expansion, start, ok, >>=-eq-ok, ok-injective, add, parse_range, expand,
}
use motzworks.Discovery.Loops.{run_of, add_all}
use motzworks.Discovery.Reference.{
  ZonesAgree, Enough, denoted, denoted_all, denoted_cidr, denoted_range, denoted_single,
  parse_range-IsAddr, ordered, expand-denoted,
}

-- The map and the slice hold the same addresses, and the slice each of them once.
record Tracks (s : Expansion) : Type 0 where
  same : (a : Addr) → contains s.seen a ≡ contains s.out a
  distinct : Distinct s.out

add-Tracks : (s : Expansion) (a : Addr) → Tracks s → Tracks (add s a)
unfolding add contains
add-Tracks s a t = elim (Bool-cases (contains s.seen a)) [
  | inl old ↦ rw old t
  | inr new ↦ rw new (record {
    same = λ x. ground (arith, contains-snoc s.out a x, t.same x);
    distinct = Distinct-snoc s.out a t.distinct (sym (t.same a) ∙ new);
  })
]

contains-add :
    (s : Expansion) (a x : Addr)
    → Tracks s
    → contains (add s a).out x ≡ (contains s.out x || addr_eq a x)
unfolding add
contains-add s a x t = ground (arith, contains-snoc s.out a x, t.same a, t.same x, addr_eq_iff a x)

add_all-Tracks : (s : Expansion) (l : List Addr) → Tracks s → Tracks (add_all s l)
add_all-Tracks s [] t = t
add_all-Tracks s (a ∷ l) t = add_all-Tracks (add s a) l (add-Tracks s a t)

contains-add_all :
    (s : Expansion) (l : List Addr) (x : Addr)
    → Tracks s
    → contains (add_all s l).out x ≡ (contains s.out x || contains l x)
unfolding contains
contains-add_all s [] x t = ground arith
contains-add_all s (a ∷ l) x t =
    ground (arith, contains-add s a x t, contains-add_all (add s a) l x (add-Tracks s a t))

start-Tracks : Tracks start
unfolding contains
start-Tracks = record { same = λ x. refl; distinct = tt }

-- An address lies in a run of n addresses from a on.
abbrev within : Addr → ℕ → Addr → Bool
within a n x = family_eq a.family x.family && leb a.value x.value && ltb x.value (a.value + n)

contains-run_of : (n : ℕ) (a x : Addr) → contains (run_of n a) x ≡ within a n x
unfolding contains addr_eq
contains-run_of zero a x = ground arith
contains-run_of (suc n) a x = ground (arith, contains-run_of n (record a { value = a.value + 1 }) x)

abbrev none_or {ℓ} : {A : Type ℓ} → Option A → (A → Bool) → Bool
none_or none f = false
none_or (some a) f = f a

module _ (net : Netip) where
  -- Whether a spec covers an address: by the prefix as it was written, the two ends of the range,
  -- or the one address.
  pub covers : Text → Addr → Bool
  covers raw x =
      let spec = trim_space raw in
      let (before, after, found) = cut b'-' spec in
      if is_empty spec
      then false
      else if contains spec b'/'
      then none_or (net.parse_prefix spec) (λ p. prefix_contains p x)
      else if contains spec b'-'
      then none_or (net.parse_addr (trim_space before)) (λ lo.
        none_or (net.parse_addr (trim_space after))
          (λ hi. family_eq lo.family x.family && leb lo.value x.value && leb x.value hi.value))
      else none_or (net.parse_addr spec) (λ a. addr_eq a x)

  pub covered : List Text → Addr → Bool
  covered [] x = false
  covered (spec ∷ specs) x = covers spec x || covered specs x

same_family :
    (f g : Family)
    → no_zone f ≡ true
    → bit_len f ≢ 0
    → family_eq (without_zone f) g
      ≡ (no_zone g && not (nat_eq (bit_len f) 0) && nat_eq (bit_len f) (bit_len g))
unfolding family_eq bit_len text_eq
same_family unset g z h = absurd (h refl)
same_family ip4 unset z h = refl
same_family ip4 ip4 z h = refl
same_family ip4 (ip6 []) z h = refl
same_family ip4 (ip6 (c ∷ s)) z h = refl
same_family (ip6 []) unset z h = refl
same_family (ip6 []) ip4 z h = refl
same_family (ip6 []) (ip6 []) z h = refl
same_family (ip6 []) (ip6 (c ∷ s)) z h = refl
same_family (ip6 (d ∷ t)) g z h = cc

below_next : (m a b : ℕ) → 0 < m → a / m < b / m → a < b / m * m
below_next m a b pos h = (div-lt_iff_lt-mul pos).0 h

same_block :
    (m b v : ℕ) → 0 < m → (leb (b - b % m) v && ltb v (b - b % m + m)) ≡ nat_eq (v / m) (b / m)
same_block m b v pos =
    let start : b - b % m ≡ b / m * m = omega (arith, mod-add-div' b m) in
    rw start (elim (Bool-cases (ltb (v / m) (b / m))) [
      | inl lo ↦ ground (arith, below_next m v b pos)
      | inr hi ↦ ground (
        arith,
        (le-div_iff_mul-le {x = b / m} {y = v} pos).0,
        (le-div_iff_mul-le {x = suc (b / m)} {y = v} pos).0,
        lt-div-mul-add {a = v} pos,
      )
    ])

module _ (net : Netip) (laws : NetipLaws net) where
  cidr_covers :
      (p : Prefix) (x : Addr)
      → IsPrefix p
      → contains (run_of (block (masked p)) (masked p).addr) x ≡ prefix_contains p x
  unfolding prefix_contains masked
  cidr_covers p x h = rw (block-masked p) (
      contains-run_of (block p) (masked p).addr x
      ∙ ground (
        arith,
        same_family p.addr.family x.family h.zoneless,
        same_block (block p) p.addr.value x.value (pos_block p),
        IsBlock.sized (masked-IsBlock p h),
      ))

  range_covers :
      (lo hi x : Addr)
      → lo.family ≡ hi.family
      → lo.value ≤ hi.value
      → contains (run_of (suc (hi.value - lo.value)) lo) x
        ≡ (family_eq lo.family x.family && leb lo.value x.value && leb x.value hi.value)
  range_covers lo hi x f le = contains-run_of (suc (hi.value - lo.value)) lo x ∙ ground arith

  denoted_cidr-covers :
      (spec : Text) (found : List Addr) (x : Addr)
      → denoted_cidr net spec ≡ ok found
      → contains found x ≡ none_or (net.parse_prefix spec) (λ p. prefix_contains p x)
  unfolding denoted_cidr
  denoted_cidr-covers spec found x e = elim (Option-cases (net.parse_prefix spec)) [
    | inl bad ↦ cc
    | inr (p, good) ↦ rw good (ground arith ∙ cidr_covers p x (laws.prefix_law spec p good))
  ]

module _ (net : Netip) (laws : NetipLaws net) where
  denoted_range-covers :
      (spec : Text) (found : List Addr) (x : Addr)
      → ((lo hi : Addr) → parse_range net spec ≡ ok (lo, hi) → lo.family ≡ hi.family)
      → denoted_range net spec ≡ ok found
      → contains found x ≡ (
          let (before, after, _) = cut b'-' spec in
          none_or (net.parse_addr (trim_space before)) (λ lo.
            none_or
              (net.parse_addr (trim_space after))
              (λ hi. family_eq lo.family x.family && leb lo.value x.value && leb x.value hi.value)))
  unfolding denoted_range parse_range
  denoted_range-covers spec found x agree e =
      let (before, after, _) = cut b'-' spec in
      elim (Option-cases (net.parse_addr (trim_space before))) [
        | inl bad ↦ cc
        | inr (lo, good) ↦ elim (Option-cases (net.parse_addr (trim_space after))) [
          | inl bad' ↦ ground arith
          | inr (hi, good') ↦
              let whole : parse_range net spec ≡ ok (lo, hi) = ground arith in
              let f : lo.family ≡ hi.family = agree lo hi whole in
              let le : lo.value ≤ hi.value =
                ordered lo hi f (parse_range-IsAddr net laws spec lo hi whole).2 in
              rw (good, good') (ground (arith, whole) ∙ range_covers net laws lo hi x f le)
        ]
      ]

  denoted-covers :
      (raw : Text) (found : List Addr) (x : Addr)
      → ZonesAgree net raw
      → denoted net raw ≡ ok found
      → contains found x ≡ covers net raw x
  unfolding denoted covers denoted_single contains
  denoted-covers raw found x agree e =
      let spec = trim_space raw in
      ground (
        arith,
        denoted_cidr-covers net laws spec found x,
        denoted_range-covers spec found x agree.zones,
      )

  denoted_all-covered :
      (specs : List Text) (found : List Addr) (x : Addr)
      → All (ZonesAgree net) specs
      → denoted_all net specs ≡ ok found
      → contains found x ≡ covered net specs x
  unfolding denoted_all covered contains
  denoted_all-covered [] found x agree e = ground arith
  denoted_all-covered (spec ∷ specs) found x (agree, agrees) e =
      let (first, ok_first, rest_ok) = >>=-eq-ok (denoted net spec) _ e in
      let (rest, ok_rest, joined) = >>=-eq-ok (denoted_all net specs) _ rest_ok in
      rw (← ok-injective joined) (
        contains-append first rest x
        ∙ rw (
          denoted-covers spec first x agree ok_first,
          denoted_all-covered specs rest x agrees ok_rest,
        ))

  -- If the ends of every range carry the same zone and the fuel is above 2 ^ 128, every address
  -- that Expand returns is covered by a spec, every covered address is returned, and none is
  -- returned twice.
  pub expand-covered :
      (fuel : ℕ) (specs : List Text) (out : List Addr)
      → All (ZonesAgree net) specs
      → Enough fuel
      → expand net fuel specs ≡ ok out
      → Distinct out × ((x : Addr) → contains out x ≡ covered net specs x)
  unfolding contains
  expand-covered fuel specs out agree h e =
      let (found, ok_found, e') =
        >>=-eq-ok (denoted_all net specs) _
          (sym (expand-denoted net laws fuel specs agree h) ∙ e) in
      let t = add_all-Tracks start found start-Tracks in
      rw (← ok-injective e') (
        t.distinct,
        λ x.
            contains-add_all start found x start-Tracks
            ∙ denoted_all-covered specs found x agree ok_found,
      )
