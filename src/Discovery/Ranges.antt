-- ===== src/Discovery/Ranges.antt =====
-- Two behaviours of ranges in `Expand`: ends with different zones, and IPv6 ends.
use motzworks.Prelude.{
  ℕ, suc, ◌-◌, ◌<◌, ◌≡◌, ◌≢◌, true, false, List, [], ◌∷◌, arith, nat_Eq, contains, ◌∙◌,
}
use motzworks.Text.{Text, trim_space, is_empty}
use motzworks.Addr.{Addr, unset, ip6, is_valid, family_eq_iff, Netip, NetipLaws, IsAddr}
use motzworks.Discovery.Expand.{
  start, ok, out_of_fuel, parse_range, expand_range, expand_spec, expand_specs, expand,
}
use motzworks.Discovery.Loops.{run_of, add_all, range_loop_run, range_loop_lost}
use motzworks.Discovery.Reference.{parse_range-IsAddr, ordered}

-- The code takes a spec for a range.
pub record IsRange (raw : Text) : Type 0 where
  pub nonempty : is_empty (trim_space raw) ≡ false
  pub no_slash : contains (trim_space raw) b'/' ≡ false
  pub dash : contains (trim_space raw) b'-' ≡ true

valid_family : (a : Addr) → is_valid a ≡ true → unset ≢ a.family
unfolding is_valid
valid_family a h = ground (arith, family_eq_iff a.family unset)

module _ (net : Netip) (laws : NetipLaws net) (raw : Text) (r : IsRange raw) (lo hi : Addr)
    (e : parse_range net (trim_space raw) ≡ ok (lo, hi)) where
  -- If a range is accepted by parseRange and its two ends belong to different families or zones,
  -- Expand is still running after any amount of fuel, whatever specs follow: its loop never ends.
  pub expand-zones_differ :
      (specs : List Text) (fuel : ℕ)
      → lo.family ≢ hi.family
      → expand net fuel (raw ∷ specs) ≡ out_of_fuel
  unfolding expand expand_specs expand_spec expand_range
  expand-zones_differ specs fuel f =
      let g =
        valid_family hi (IsAddr.valid (parse_range-IsAddr net laws (trim_space raw) lo hi e).1) in
      rw (r.nonempty, r.no_slash, r.dash, e, range_loop_lost fuel hi lo start f g)

  -- If parseRange accepts a range of two IPv6 addresses with one zone, Expand gives every address
  -- from the first to the last, with fuel above their difference.
  pub expand-ipv6_range :
      (fuel : ℕ) (z : Text)
      → lo.family ≡ ip6 z
      → hi.family ≡ ip6 z
      → hi.value - lo.value < fuel
      → expand net fuel (raw ∷ []) ≡ ok (add_all start (run_of (suc (hi.value - lo.value)) lo)).out
  unfolding expand expand_specs expand_spec expand_range
  expand-ipv6_range fuel z p q h =
      let (lo_ok, hi_ok, le) = parse_range-IsAddr net laws (trim_space raw) lo hi e in
      let f : lo.family ≡ hi.family = p ∙ rw q in
      let lo_le = ordered lo hi f le in
      rw (
        r.nonempty,
        r.no_slash,
        r.dash,
        e,
        range_loop_run (hi.value - lo.value) fuel hi lo start f (omega arith) hi_ok.in_space h,
      )
