-- ===== src/Discovery/Reference.antt =====
-- What a scan spec denotes, with no loop and no fuel, and `Expand` against it.
use motzworks.Prelude.{
  ℕ, suc, ◌-◌, ◌^◌, ◌≤◌, ◌<◌, ◌≡◌, refl, sym, ap, ◌∙◌, false, List, [], ◌∷◌, ◌++◌, arith, All,
  nat_Eq, contains, if◌then◌else◌,
}
use motzworks.Text.{Text, trim_space, is_empty, cut}
use motzworks.Addr.{
  Family, unset, Addr, addr_Eq, compare_gt, space, Prefix, block, masked, Netip, NetipLaws, IsAddr,
  IsPrefix, ip4, ip6,
}
use motzworks.Addr.Blocks.{pos_block, masked-IsBlock}
use motzworks.Discovery.Expand.{
  Expansion, start, Outcome, ok, or_err, ◌>>=◌, invalid_cidr, invalid_address, add, cidr_loop,
  bind_cong, bind_assoc, parse_range, expand_cidr, expand_range, expand_single, expand_spec,
  expand_specs, expand,
}
use motzworks.Discovery.Loops.{run_of, add_all, range_loop_run, cidr_loop_run}

module _ (net : Netip) where
  unfoldable pub denoted_cidr : Text → Outcome (List Addr)
  denoted_cidr spec = do
    p ← or_err (net.parse_prefix spec) (invalid_cidr spec)
    ok (run_of (block (masked p)) (masked p).addr)

  unfoldable pub denoted_range : Text → Outcome (List Addr)
  denoted_range spec = do
    (lo, hi) ← parse_range net spec
    ok (run_of (suc (hi.value - lo.value)) lo)

  unfoldable pub denoted_single : Text → Outcome (List Addr)
  denoted_single spec = do a ← or_err (net.parse_addr spec) (invalid_address spec); ok (a ∷ [])

  -- The addresses of one spec, in the order in which the code meets them.
  unfoldable pub denoted : Text → Outcome (List Addr)
  denoted raw =
      let spec = trim_space raw in
      if is_empty spec
      then ok []
      else if contains spec b'/'
      then denoted_cidr spec
      else if contains spec b'-'
      then denoted_range spec
      else denoted_single spec

  unfoldable pub denoted_all : List Text → Outcome (List Addr)
  denoted_all [] = ok []
  denoted_all (spec ∷ specs) = do first ← denoted spec; rest ← denoted_all specs; ok (first ++ rest)

  -- If the spec is a range, its ends carry the same zone.
  pub record ZonesAgree (raw : Text) : Type 0 where
    pub zones :
        (lo hi : Addr) → parse_range net (trim_space raw) ≡ ok (lo, hi) → lo.family ≡ hi.family

abbrev pub Enough : ℕ → Type 0
Enough fuel = 2 ^ 128 < fuel

space-le : (f : Family) → space f ≤ 2 ^ 128
unfolding space
space-le unset = omega arith
space-le ip4 = omega arith
space-le (ip6 z) = omega arith

pub ordered : (a b : Addr) → a.family ≡ b.family → compare_gt a b ≡ false → a.value ≤ b.value
unfolding compare_gt
ordered a b f e = ground arith

module _ (net : Netip) (laws : NetipLaws net) where
  pub parse_range-IsAddr :
      (spec : Text) (lo hi : Addr)
      → parse_range net spec ≡ ok (lo, hi)
      → IsAddr lo × IsAddr hi × (compare_gt lo hi ≡ false)
  unfolding parse_range
  parse_range-IsAddr spec lo hi e =
      let (before, after, found) = cut b'-' spec in
      ground (arith, laws.addr_law (trim_space before) lo, laws.addr_law (trim_space after) hi)

  module _ (fuel : ℕ) (h : Enough fuel) where
    cidr_loop-masked :
        (p : Prefix) (s : Expansion)
        → IsPrefix p
        → cidr_loop fuel (masked p) (masked p).addr s
          ≡ ok (add_all s (run_of (block (masked p)) (masked p).addr))
    cidr_loop-masked p s ok_p =
        let q = masked p in
        let b = masked-IsBlock p ok_p in
        let e : block q ≡ suc (block q - 1) = omega (arith, pos_block q) in
        rw e (
          cidr_loop_run q b (block q - 1) fuel q.addr s refl (omega arith) (omega arith)
            (omega (arith, pos_block q, b.fits, space-le q.addr.family)))

    expand_cidr-denoted :
        (spec : Text) (s : Expansion)
        → expand_cidr net fuel spec s ≡ (do found ← denoted_cidr net spec; ok (add_all s found))
    unfolding expand_cidr denoted_cidr
    expand_cidr-denoted spec s =
        bind_cong (or_err (net.parse_prefix spec) (invalid_cidr spec)) _ _
          (λ p e. cidr_loop-masked p s (laws.prefix_law spec p (ground arith)))
        ∙ sym (bind_assoc (or_err (net.parse_prefix spec) (invalid_cidr spec)) _ _)

    expand_range-denoted :
        (spec : Text) (s : Expansion)
        → ((lo hi : Addr) → parse_range net spec ≡ ok (lo, hi) → lo.family ≡ hi.family)
        → expand_range net fuel spec s ≡ (do found ← denoted_range net spec; ok (add_all s found))
    unfolding expand_range denoted_range
    expand_range-denoted spec s agree =
        bind_cong (parse_range net spec) _ _ (λ ends e.
          let lo = ends.0 in
          let hi = ends.1 in
          let f : lo.family ≡ hi.family = agree lo hi e in
          let (lo_ok, hi_ok, le) = parse_range-IsAddr spec lo hi e in
          let lo_le : lo.value ≤ hi.value = ordered lo hi f le in
          range_loop_run (hi.value - lo.value) fuel hi lo s f (omega arith) hi_ok.in_space
            (omega (arith, hi_ok.in_space, space-le hi.family)))
        ∙ sym (bind_assoc (parse_range net spec) _ _)

    expand_single-denoted :
        (spec : Text) (s : Expansion)
        → expand_single net spec s ≡ (do found ← denoted_single net spec; ok (add_all s found))
    unfolding expand_single denoted_single
    expand_single-denoted spec s = ground arith

    pub expand_spec-denoted :
        (raw : Text) (s : Expansion)
        → ZonesAgree net raw
        → expand_spec net fuel raw s ≡ (do found ← denoted net raw; ok (add_all s found))
    unfolding expand_spec denoted
    expand_spec-denoted raw s agree =
        let spec = trim_space raw in
        ground (
          arith,
          expand_cidr-denoted spec s,
          expand_range-denoted spec s agree.zones,
          expand_single-denoted spec s,
        )

pub add_all-append :
    (s : Expansion) (found more : List Addr)
    → add_all s (found ++ more) ≡ add_all (add_all s found) more
add_all-append s [] bs = refl
add_all-append s (a ∷ found) bs = add_all-append (add s a) found bs

module _ (net : Netip) (laws : NetipLaws net) where
  module _ (fuel : ℕ) (h : Enough fuel) where
    expand_specs-denoted :
        (specs : List Text) (s : Expansion)
        → All (ZonesAgree net) specs
        → expand_specs net fuel specs s ≡ (do found ← denoted_all net specs; ok (add_all s found))
    unfolding expand_specs denoted_all
    expand_specs-denoted [] s agree = refl
    expand_specs-denoted (spec ∷ specs) s (agree, agrees) =
        rw (expand_spec-denoted net laws fuel h spec s agree) (
          bind_assoc (denoted net spec) _ _
          ∙ (bind_cong (denoted net spec) _ _ (λ found e.
                expand_specs-denoted specs (add_all s found) agrees
                ∙ (bind_cong (denoted_all net specs) _ _
                      (λ more e'. ap ok (sym (add_all-append s found more)))
                    ∙ sym (bind_assoc (denoted_all net specs) _ _)))
              ∙ sym (bind_assoc (denoted net spec) _ _)))

  -- If the ends of every range carry the same zone, Expand with fuel above 2 ^ 128 ends, and
  -- returns the addresses that its specs denote, without repetitions, or the error of the first
  -- malformed spec.
  pub expand-denoted :
      (fuel : ℕ) (specs : List Text)
      → All (ZonesAgree net) specs
      → Enough fuel
      → expand net fuel specs ≡ (do found ← denoted_all net specs; ok (add_all start found).out)
  unfolding expand
  expand-denoted fuel specs agree h =
      rw (expand_specs-denoted fuel h specs start agree) (bind_assoc (denoted_all net specs) _ _)
