-- ===== src/Discovery/Loops.antt =====
-- The two address loops of `Expand` against the run of consecutive addresses that they add.
use motzworks.Prelude.{
  ℕ, zero, suc, ◌+◌, ◌≤◌, ◌<◌, ◌≡◌, refl, ◌≢◌, inl, inr, false, List, [], ◌∷◌, arith, Bool-cases,
  nat_eq,
}
use motzworks.Addr.{
  Family, unset, Addr, addr_eq, space, next, Prefix, block, prefix_contains, family_eq_iff,
}
use motzworks.Addr.Blocks.{
  IsBlock, contains_inside, not_contains_top, not_contains_invalid, next_inside, next_last,
}
use motzworks.Discovery.Expand.{Expansion, ok, out_of_fuel, add, cidr_loop, range_loop}

-- n addresses from a on.
abbrev pub run_of : ℕ → Addr → List Addr
run_of zero a = []
run_of (suc n) a = a ∷ run_of n (record a { value = a.value + 1 })

abbrev pub add_all : Expansion → List Addr → Expansion
add_all s [] = s
add_all s (a ∷ rest) = add_all (add s a) rest

above : (v k h : ℕ) → v + suc k ≡ h → nat_eq v h ≡ false
above v k h e = ground arith

pub range_loop_run :
    (k fuel : ℕ) (hi a : Addr) (s : Expansion)
    → a.family ≡ hi.family
    → a.value + k ≡ hi.value
    → hi.value < space hi.family
    → k < fuel
    → range_loop fuel hi a s ≡ ok (add_all s (run_of (suc k) a))
unfolding range_loop addr_eq
range_loop_run k zero hi a s f e h lt = absurd (omega arith)
range_loop_run zero (suc fuel) hi a s f e h lt = ground (arith, family_eq_iff a.family hi.family)
range_loop_run (suc k) (suc fuel) hi a s f e h lt =
    let a' : Addr = record a { value = a.value + 1 } in
    let step : next a ≡ a' = next_inside a (rw f (omega arith)) in
    rw (step, above a.value k hi.value e)
      (ground (arith, range_loop_run k fuel hi a' (add s a) f (omega arith) h (omega arith)))

next_apart : (a : Addr) (f : Family) → a.family ≢ f → unset ≢ f → (next a).family ≢ f
unfolding next
next_apart a f g h = ground arith

-- Where the families differ the loop never reaches its end.
pub range_loop_lost :
    (fuel : ℕ) (hi a : Addr) (s : Expansion)
    → a.family ≢ hi.family
    → unset ≢ hi.family
    → range_loop fuel hi a s ≡ out_of_fuel
unfolding range_loop addr_eq
range_loop_lost zero hi a s f g = refl
range_loop_lost (suc fuel) hi a s f g =
    let f' : (next a).family ≢ hi.family = next_apart a hi.family f g in
    ground
      (arith, family_eq_iff a.family hi.family, range_loop_lost fuel hi (next a) (add s a) f' g)

module _ (p : Prefix) (b : IsBlock p) where
  cidr_loop_end :
      (fuel : ℕ) (a : Addr) (s : Expansion)
      → prefix_contains p a ≡ false
      → 0 < fuel
      → cidr_loop fuel p a s ≡ ok s
  unfolding cidr_loop
  cidr_loop_end zero a s e h = absurd (omega arith)
  cidr_loop_end (suc fuel) a s e h = rw e

  next_outside :
      (a : Addr)
      → a.family ≡ p.addr.family
      → a.value + 1 ≡ p.addr.value + block p
      → prefix_contains p (next a) ≡ false
  next_outside a f e = elim (Bool-cases (nat_eq (a.value + 1) (space a.family))) [
    | inl last ↦ rw (next_last a (ground arith)) (not_contains_invalid p b)
    | inr more ↦ rw (next_inside a (rw f (ground (arith, b.fits)))) (not_contains_top p b _ e)
  ]

  pub cidr_loop_run :
      (n fuel : ℕ) (a : Addr) (s : Expansion)
      → a.family ≡ p.addr.family
      → p.addr.value ≤ a.value
      → a.value + suc n ≡ p.addr.value + block p
      → suc n < fuel
      → cidr_loop fuel p a s ≡ ok (add_all s (run_of (suc n) a))
  unfolding cidr_loop
  cidr_loop_run n zero a s f lo e lt = absurd (omega arith)
  cidr_loop_run zero (suc fuel) a s f lo e lt =
      rw (contains_inside p b a f lo (omega arith))
        (cidr_loop_end fuel (next a) (add s a) (next_outside a f (omega arith)) (omega arith))
  cidr_loop_run (suc n) (suc fuel) a s f lo e lt =
      let a' : Addr = record a { value = a.value + 1 } in
      let step : next a ≡ a' = next_inside a (rw f (omega (arith, b.fits))) in
      rw (contains_inside p b a f lo (omega arith), step)
        (cidr_loop_run n fuel a' (add s a) f (omega arith) (omega arith) (omega arith))
