-- ===== src/Discovery/Expand.antt =====
-- internal/discovery/discovery.go: `Expand` and `parseRange`. The two loops over addresses take
-- fuel; `out_of_fuel` says that the loop was still running when the fuel ended.
use motzworks.Prelude.{
  ℕ, zero, suc, ◌≡◌, refl, ◌&&◌, ◌||◌, not, Option, none, some, List, [], ◌∷◌, ◌++◌, nat_Eq, ◌==◌,
  if◌then◌else◌, contains,
}
use motzworks.Text.{Text, is_empty, trim_space, cut}
use motzworks.Addr.{Addr, addr_Eq, next, is4, compare_gt, Prefix, masked, prefix_contains, Netip}

pub data ExpandError : Type 0 where
  invalid_cidr invalid_range_start invalid_range_end invalid_range invalid_address :
      Text → ExpandError

pub data Outcome {ℓ} (A : Type ℓ) : Type ℓ where
  ok : A → Outcome A
  err : ExpandError → Outcome A
  out_of_fuel : Outcome A

infixl 5 ◌>>=◌
abbrev pub ◌>>=◌ {ℓ κ} : {A : Type ℓ} {B : Type κ} → Outcome A → (A → Outcome B) → Outcome B
ok a >>= f = f a
err e >>= f = err e
out_of_fuel >>= f = out_of_fuel

abbrev pub or_err {ℓ} : {A : Type ℓ} → Option A → ExpandError → Outcome A
or_err none e = err e
or_err (some a) e = ok a

-- Two chains agree if they agree after every result of their common first step.
pub bind_cong {ℓ κ} :
    {A : Type ℓ} {B : Type κ} (m : Outcome A) (f g : A → Outcome B)
    → ((a : A) → m ≡ ok a → f a ≡ g a)
    → (m >>= f) ≡ (m >>= g)
bind_cong (ok a) f g h = h a refl
bind_cong (err e) f g h = refl
bind_cong out_of_fuel f g h = refl

pub bind_assoc {ℓ κ μ} :
    {A : Type ℓ} {B : Type κ} {C : Type μ} (m : Outcome A) (f : A → Outcome B) (g : B → Outcome C)
    → (m >>= f >>= g) ≡ (m >>= λ a. f a >>= g)
bind_assoc (ok a) f g = refl
bind_assoc (err e) f g = refl
bind_assoc out_of_fuel f g = refl

-- A chain that ends well: what its first step gave, and that the rest follows.
pub >>=-eq-ok {ℓ κ} :
    {A : Type ℓ} {B : Type κ} (first : Outcome A) (rest : A → Outcome B) {out : B}
    → (first >>= rest) ≡ ok out
    → (mid : A) × (first ≡ ok mid) × (rest mid ≡ ok out)
>>=-eq-ok out_of_fuel rest h = cc
>>=-eq-ok (err e) rest h = cc
>>=-eq-ok (ok mid) rest h = (mid, refl, h)

pub ok-injective {ℓ} : {A : Type ℓ} {a b : A} → ok a ≡ ok b → a ≡ b
ok-injective h = cc

-- The map `seen` and the slice `out` of Expand.
pub record Expansion : Type 0 where
  pub seen : List Addr
  pub out : List Addr

abbrev pub start : Expansion
start = record { seen = []; out = [] }

-- The closure `add`.
unfoldable pub add : Expansion → Addr → Expansion
add s a = if contains s.seen a then s else record { seen = a ∷ s.seen; out = s.out ++ a ∷ [] }

-- for a := prefix.Addr(); prefix.Contains(a); a = a.Next() { add(a) }
unfoldable pub cidr_loop : ℕ → Prefix → Addr → Expansion → Outcome Expansion
cidr_loop zero p a s = out_of_fuel
cidr_loop (suc fuel) p a s =
    let rest = cidr_loop fuel p (next a) (add s a) in if prefix_contains p a then rest else ok s

-- for a := lo; ; a = a.Next() { add(a); if a == hi { break } }
unfoldable pub range_loop : ℕ → Addr → Addr → Expansion → Outcome Expansion
range_loop zero hi a s = out_of_fuel
range_loop (suc fuel) hi a s =
    let s' = add s a in let rest = range_loop fuel hi (next a) s' in if a == hi then ok s' else rest

module _ (net : Netip) where
  unfoldable pub parse_range : Text → Outcome (Addr × Addr)
  parse_range spec = do
    let (before, after, found) = cut b'-' spec
    lo ← or_err (net.parse_addr (trim_space before)) (invalid_range_start spec)
    hi ← or_err (net.parse_addr (trim_space after)) (invalid_range_end spec)
    if not (is4 lo && is4 hi || not (is4 lo) && not (is4 hi)) || compare_gt lo hi
        then err (invalid_range spec)
        else ok (lo, hi)

  unfoldable pub expand_cidr : ℕ → Text → Expansion → Outcome Expansion
  expand_cidr fuel spec s = do
    p ← or_err (net.parse_prefix spec) (invalid_cidr spec)
    cidr_loop fuel (masked p) (masked p).addr s

  unfoldable pub expand_range : ℕ → Text → Expansion → Outcome Expansion
  expand_range fuel spec s = do (lo, hi) ← parse_range spec; range_loop fuel hi lo s

  unfoldable pub expand_single : Text → Expansion → Outcome Expansion
  expand_single spec s = do a ← or_err (net.parse_addr spec) (invalid_address spec); ok (add s a)

  -- The body of the loop over the specs.
  unfoldable pub expand_spec : ℕ → Text → Expansion → Outcome Expansion
  expand_spec fuel raw s =
      let spec = trim_space raw in
      if is_empty spec
      then ok s
      else if contains spec b'/'
      then expand_cidr fuel spec s
      else if contains spec b'-'
      then expand_range fuel spec s
      else expand_single spec s

  unfoldable pub expand_specs : ℕ → List Text → Expansion → Outcome Expansion
  expand_specs fuel [] s = ok s
  expand_specs fuel (spec ∷ specs) s = do s' ← expand_spec fuel spec s; expand_specs fuel specs s'

  unfoldable pub expand : ℕ → List Text → Outcome (List Addr)
  expand fuel specs = do s ← expand_specs fuel specs start; ok s.out
