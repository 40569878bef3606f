-- ===== src/Addr/Blocks.antt =====
-- Addr.Next and Prefix.Contains on the block of addresses that a masked prefix stands for.
use native.Mathlib.Nat.{
  div-eq_of_lt-le, div-lt_iff_lt-mul, pow-suc, pow-zero, one-le-pow, mod-add-div', mul_assoc,
}
use motzworks.Prelude.{
  ℕ, zero, suc, ◌+◌, ◌-◌, ◌*◌, ◌/◌, ◌%◌, ◌^◌, ◌≤◌, ◌<◌, ◌≡◌, refl, ◌∙◌, ◌≢◌, true, false, arith, ap,
}
use motzworks.Addr.{
  Family, unset, ip4, ip6, Addr, invalid, is_valid, bit_len, space, next, Prefix, block, masked,
  without_zone, no_zone, prefix_contains, IsPrefix, family_eq,
}

pow_add : (b n m : ℕ) → b ^ (n + m) ≡ b ^ n * b ^ m
pow_add b n zero = grind (arith, pow-zero b)
pow_add b n (suc m) =
    let e : n + suc m ≡ suc (n + m) = omega arith in
    ap (λ k. b ^ k) e ∙ rw (pow-suc, pow_add b n m, pow-suc, mul_assoc)

pub pos_block : (p : Prefix) → 0 < block p
unfolding block
pos_block p = one-le-pow (bit_len p.addr.family - p.bits) 2 (omega arith)

-- The block starts at a multiple of its length, and lies within the family.
pub record IsBlock (p : Prefix) : Type 0 where
  pub zoneless : no_zone p.addr.family ≡ true
  pub sized : bit_len p.addr.family ≢ 0
  pub quotient : ℕ
  pub aligned : p.addr.value ≡ quotient * block p
  pub fits : p.addr.value + block p ≤ space p.addr.family

space_bits : (f : Family) → bit_len f ≢ 0 → space f ≡ 2 ^ bit_len f
unfolding space bit_len
space_bits unset h = absurd (h refl)
space_bits ip4 h = refl
space_bits (ip6 z) h = refl

valid_sized : (f : Family) → is_valid (record { family = f; value = 0 }) ≡ true → bit_len f ≢ 0
unfolding is_valid bit_len family_eq
valid_sized unset h = cc
valid_sized ip4 h = omega arith
valid_sized (ip6 z) h = omega arith

window : (m q v : ℕ) → q * m ≤ v → v < q * m + m → v / m ≡ q
window m q v h k = div-eq_of_lt-le m h (grind arith)

last_block : (m k v : ℕ) → 0 < m → v < k * m → v - v % m + m ≤ k * m
last_block m k v pos h =
    let low : v / m < k = (div-lt_iff_lt-mul pos).1 h in grind (arith, mod-add-div' v m)

zoneless_without : (f : Family) → no_zone (without_zone f) ≡ true
zoneless_without unset = refl
zoneless_without ip4 = refl
zoneless_without (ip6 z) = refl

bit_len-without : (f : Family) → bit_len (without_zone f) ≡ bit_len f
unfolding bit_len
bit_len-without unset = refl
bit_len-without ip4 = refl
bit_len-without (ip6 z) = refl

space-without : (f : Family) → space (without_zone f) ≡ space f
unfolding space
space-without unset = refl
space-without ip4 = refl
space-without (ip6 z) = refl

pub block-masked : (p : Prefix) → block (masked p) ≡ block p
unfolding masked block
block-masked p = rw (bit_len-without p.addr.family)

space-eq-blocks : (p : Prefix) → IsPrefix p → space p.addr.family ≡ 2 ^ p.bits * block p
unfolding block is_valid
space-eq-blocks p h =
    let f = p.addr.family in
    let split : bit_len f ≡ p.bits + (bit_len f - p.bits) = omega arith in
    space_bits f (valid_sized f h.addr_ok.valid)
    ∙ (ap (λ k. 2 ^ k) split ∙ pow_add 2 p.bits (bit_len f - p.bits))

pub masked-IsBlock : (p : Prefix) → IsPrefix p → IsBlock (masked p)
unfolding masked is_valid
masked-IsBlock p h =
    let f = p.addr.family in
    let v = p.addr.value in
    let m = block p in
    record {
      zoneless = zoneless_without f;
      sized = rw (bit_len-without f) (valid_sized f h.addr_ok.valid);
      quotient = v / m;
      aligned = rw (block-masked p) (omega (arith, mod-add-div' v m));
      fits =
          rw (block-masked p, space-without f, space-eq-blocks p h)
            (last_block m (2 ^ p.bits) v (pos_block p)
              (rw (space-eq-blocks p h) at h.addr_ok.in_space));
    }

module _ (p : Prefix) (b : IsBlock p) where
  pub contains_inside :
      (a : Addr)
      → a.family ≡ p.addr.family
      → p.addr.value ≤ a.value
      → a.value < p.addr.value + block p
      → prefix_contains p a ≡ true
  unfolding prefix_contains
  contains_inside a f lo hi =
      let q = b.quotient in
      let e : a.value / block p ≡ q =
        window (block p) q a.value (omega (arith, b.aligned)) (omega (arith, b.aligned)) in
      let e' : p.addr.value / block p ≡ q =
        window (block p) q p.addr.value (omega (arith, b.aligned))
          (omega (arith, b.aligned, pos_block p)) in
      rw (f, e, e', b.zoneless) (ground (arith, b.sized))

  pub not_contains_top : (a : Addr) → a.value ≡ p.addr.value + block p → prefix_contains p a ≡ false
  unfolding prefix_contains
  not_contains_top a e =
      let m = block p in
      let q = b.quotient in
      let e1 : a.value / m ≡ suc q =
        window m (suc q) a.value (grind (arith, b.aligned))
          (grind (arith, b.aligned, pos_block p)) in
      let e2 : p.addr.value / m ≡ q =
        window m q p.addr.value (omega (arith, b.aligned))
          (omega (arith, b.aligned, pos_block p)) in
      rw (e1, e2) (ground arith)

  pub not_contains_invalid : prefix_contains p invalid ≡ false
  unfolding prefix_contains
  not_contains_invalid = ground (arith, b.sized)

pub next_inside :
    (a : Addr)
    → a.value + 1 < space a.family
    → next a ≡ record { family = a.family; value = a.value + 1 }
unfolding next
next_inside a h = ground arith

pub next_last : (a : Addr) → a.value + 1 ≡ space a.family → next a ≡ invalid
unfolding next
next_last a h = ground arith
