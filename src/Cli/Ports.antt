-- ===== src/Cli/Ports.antt =====
-- cmd/motzworks/scan.go: what parsePorts accepts.
use mathlib.Core.List.{cons≢nil, head-eq_of_cons-eq, tail-eq_of_cons-eq}
use motzworks.Prelude.{
  ℕ, ◌≤◌, ◌≡◌, ◌↔◌, refl, subst, sym, ap, ◌⊎◌, inl, inr, List, [], ◌∷◌, map, Option, none, some,
  All, Bool-cases, Option-cases, arith, if◌then◌else◌,
}
use motzworks.Prelude.Int.{ℤ, pos, negsuc}
use motzworks.Text.{Text, is_empty, trim_space}
use motzworks.Text.Number.{atoi}
use motzworks.Cli.{Checked, ok, err, port_of, ports_of, parse_ports, split_non_empty}

abbrev pub IsPort : ℕ → Type 0
IsPort n = (1 ≤ n) × (n ≤ 65_535)

-- The parts that name a port.
abbrev pub port_parts : Text → List Text
port_parts s = if is_empty (trim_space s) then [] else split_non_empty s

port_of_iff : (o : Option ℤ) (n : ℕ) → (port_of o ≡ some n) ↔ ((o ≡ some (pos n)) × IsPort n)
port_of_iff none n = ground arith
port_of_iff (some (pos m)) n = ground arith
port_of_iff (some (negsuc m)) n = ground arith

-- The parts read as these numbers, and all of them are ports.
pub IsRead : List Text → List ℕ → Type 0
IsRead ps ns = (map (λ p. atoi (trim_space p)) ps ≡ map (λ n. some (pos n)) ns) × All IsPort ns

module _ (quote : Text → Text) where
  Checked-cases :
      (c : Checked (List ℕ)) → ((e : Text) × (c ≡ err e)) ⊎ ((ns : List ℕ) × (c ≡ ok ns))
  Checked-cases (err e) = inl (e, refl)
  Checked-cases (ok ns) = inr (ns, refl)

  abbrev ok_or : List ℕ → Checked (List ℕ) → List ℕ
  ok_or ns (ok ms) = ms
  ok_or ns (err e) = ns

  err_ok : {e : Text} {ns : List ℕ} → err e ≡ ok ns → ⊥
  err_ok h = ground arith

  ports_of-IsRead : (ps : List Text) (ns : List ℕ) → ports_of quote ps ≡ ok ns → IsRead ps ns
  unfolding ports_of IsRead
  ports_of-IsRead [] ns h = rw (← ap (ok_or ns) h) (refl, tt)
  ports_of-IsRead (p ∷ ps) ns h = elim (Option-cases (port_of (atoi (trim_space p)))) [
    | inl e ↦ absurd (err_ok (rw e at h))
    | inr (n, e) ↦ elim (Checked-cases (ports_of quote ps)) [
      | inl (m, k) ↦ absurd (err_ok (rw (e, k) at h))
      | inr (ms, k) ↦
          let (eo, port) = (port_of_iff (atoi (trim_space p)) n).0 e in
          let (m, all) = ports_of-IsRead ps ms k in
          subst (λ l. IsRead (p ∷ ps) l) (ap (ok_or []) (rw (e, k) at h))
            (rw (eo, m) refl, (port, all))
    ]
  ]

  read_ports_of : (ps : List Text) (ns : List ℕ) → IsRead ps ns → ports_of quote ps ≡ ok ns
  unfolding ports_of IsRead
  read_ports_of [] [] h = refl
  read_ports_of [] (n ∷ ns) (h, hs) = absurd (cons≢nil (sym h))
  read_ports_of (p ∷ ps) [] (h, hs) = absurd (cons≢nil h)
  read_ports_of (p ∷ ps) (n ∷ ns) (h, (r, rs)) =
      let e = (port_of_iff (atoi (trim_space p)) n).1 (head-eq_of_cons-eq h, r) in
      let k = read_ports_of ps ns (tail-eq_of_cons-eq h, rs) in rw (e, k) refl

  -- parsePorts gives numbers exactly if its parts read as these numbers, in order, and each of
  -- them is from 1 to 65535; a blank text has no parts.
  pub parse_ports_iff :
      (s : Text) (ns : List ℕ) → (parse_ports quote s ≡ ok ns) ↔ IsRead (port_parts s) ns
  unfolding parse_ports ports_of
  parse_ports_iff s ns = elim (Bool-cases (is_empty (trim_space s))) [
    | inl e ↦ rw e (ports_of-IsRead [] ns, read_ports_of [] ns)
    | inr e ↦ rw e (ports_of-IsRead (split_non_empty s) ns, read_ports_of (split_non_empty s) ns)
  ]
