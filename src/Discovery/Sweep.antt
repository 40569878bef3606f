-- ===== src/Discovery/Sweep.antt =====
-- What a sweep of internal/discovery/discovery.go reports.
use motzworks.Prelude.{
  ℕ, ◌+◌, ◌≤◌, ◌≡◌, refl, sym, ap, ◌∙◌, Bool, true, false, ◌&&◌, ◌||◌, not, List, [], ◌∷◌, arith,
  nat_Eq, contains, length, All, Bool-cases, inl, inr, ◌==◌,
}
use motzworks.Addr.{Addr, addr_Eq}
use motzworks.Discovery.Probe.{
  Host, Options, Context, or_host, or_ports, probe_from, probe, live_first, discover_from, discover,
  with_defaults,
}

-- A host of this address is listed with this port.
pub reports : List Host → Addr → ℕ → Bool
reports [] a p = false
reports (h ∷ hs) a p = (h.addr == a && contains h.open_ports p) || reports hs a p

-- The ports of a sweep: those that are configured, or else these.
pub swept_ports : List ℕ → List ℕ
swept_ports [] =
    22 ∷ 80 ∷ 135 ∷ 139 ∷ 443 ∷ 445 ∷ 515 ∷ 631 ∷ 3389 ∷ 5985 ∷ 5986 ∷ 8006 ∷ 9100 ∷ 49000 ∷ []
swept_ports (p ∷ ports) = p ∷ ports

swept_ports-or_ports : (ports : List ℕ) → or_ports ports ≡ swept_ports ports
unfolding swept_ports
swept_ports-or_ports [] = refl
swept_ports-or_ports (p ∷ ports) = refl

module _ (dial : ℕ → Bool) (p : ℕ) where
  -- A port that is open in a probe was dialled and answered, whenever the probe was cancelled.
  contains-probe_from :
      (done : Context) (k : ℕ) (ports : List ℕ)
      → contains (probe_from done dial k ports) p ≡ true
      → (contains ports p && dial p) ≡ true
  unfolding contains probe_from
  contains-probe_from done k [] h = h
  contains-probe_from done k (q ∷ ports) h =
      let rest = contains-probe_from done (k + 1) ports in
      elim (Bool-cases (done k)) [
        | inl e ↦ absurd (ground arith)
        | inr e ↦ elim (Bool-cases (dial q)) [
          | inl answers ↦ elim (Bool-cases (q == p)) [
            | inl same ↦ rw same (ap dial (sym ((nat_Eq.beq_iff q p).0 same)) ∙ answers)
            | inr other ↦ rw other (rest (rw (e, answers, other) at h))
          ]
          | inr silent ↦ let r = rest (rw (e, silent) at h) in ground (arith, r)
        ]
      ]

  contains-uncancelled :
      (k : ℕ) (ports : List ℕ)
      → contains (probe_from (λ j. false) dial k ports) p ≡ (contains ports p && dial p)
  unfolding contains probe_from
  contains-uncancelled k [] = refl
  contains-uncancelled k (q ∷ ports) =
      let rest = contains-uncancelled (k + 1) ports in
      elim (Bool-cases (q == p)) [
        | inl same ↦
            let d : dial q ≡ dial p = ap dial ((nat_Eq.beq_iff q p).0 same) in
            elim (Bool-cases (dial q)) [
              | inl answers ↦ rw (answers, same) (sym answers ∙ d)
              | inr silent ↦ rw silent (rest ∙ ground (arith, d, silent))
            ]
        | inr other ↦ elim (Bool-cases (dial q)) [
          | inl answers ↦ rw (answers, other) rest
          | inr silent ↦ rw (silent, other) rest
        ]
      ]

module _ (a : Addr) (p : ℕ) where
  reports-live_first :
      (h : Host) (rest : List Host)
      → reports (live_first h.open_ports h rest) a p
        ≡ ((h.addr == a && contains h.open_ports p) || reports rest a p)
  unfolding reports contains
  reports-live_first h rest = split h.open_ports refl
    where
      split :
          (ports : List ℕ)
          → h.open_ports ≡ ports
          → reports (live_first ports h rest) a p
            ≡ ((h.addr == a && contains h.open_ports p) || reports rest a p)
      split [] e = rw e (ground arith)
      split (q ∷ ports) e = refl

  module _ (dial : Addr → ℕ → Bool) (opts : Options) where
    -- The address is swept, and the port is tried and answers.
    answers : List ℕ → List Addr → Bool
    answers ports addrs = contains addrs a && (contains ports p && dial a p)

    reports-discover_from :
        (ran : ℕ → Bool) (ctx : ℕ → Context) (i : ℕ) (addrs : List Addr)
        → reports (discover_from ran ctx dial opts i addrs) a p ≡ true
        → answers opts.tcp_ports addrs ≡ true
    unfolding discover_from reports contains answers probe
    reports-discover_from ran ctx i [] h = h
    reports-discover_from ran ctx i (b ∷ addrs) h =
        let rest = reports-discover_from ran ctx (i + 1) addrs in
        let found = or_host (ran i) (probe (ctx i) dial b opts) in
        let either =
          sym (reports-live_first found (discover_from ran ctx dial opts (i + 1) addrs)) ∙ h in
        elim (Bool-cases (ran i)) [
          | inl runs ↦
              let both = rw runs at either in
              let got = contains-probe_from (dial b) p (ctx i) 0 opts.tcp_ports in
              elim (Bool-cases (b == a)) [
                | inl same ↦
                    let d : dial b p ≡ dial a p =
                      ap (λ x. dial x p) ((addr_Eq.beq_iff b a).0 same) in
                    ground (arith, both, got, rest, d, same)
                | inr other ↦ ground (arith, both, rest, other)
              ]
          | inr skipped ↦ let both = rw skipped at either in ground (arith, both, rest)
        ]

    reports-uncancelled :
        (i : ℕ) (addrs : List Addr)
        → reports (discover_from (λ j. true) (λ j k. false) dial opts i addrs) a p
          ≡ answers opts.tcp_ports addrs
    unfolding discover_from contains answers probe reports
    reports-uncancelled i [] = refl
    reports-uncancelled i (b ∷ addrs) =
        let rest = reports-uncancelled (i + 1) addrs in
        let one = contains-uncancelled (dial b) p 0 opts.tcp_ports in
        reports-live_first (probe (λ k. false) dial b opts) _ ∙ elim (Bool-cases (b == a)) [
          | inl same ↦
              let d : dial b p ≡ dial a p = ap (λ x. dial x p) ((addr_Eq.beq_iff b a).0 same) in
              rw (same, one, rest, d) (ground arith)
          | inr other ↦ rw other rest
        ]

nonempty-live_first :
    (h : Host) (rest : List Host)
    → All (λ x. 1 ≤ length x.open_ports) rest
    → All (λ x. 1 ≤ length x.open_ports) (live_first h.open_ports h rest)
nonempty-live_first h rest r = split h.open_ports refl
  where
    split :
        (ports : List ℕ)
        → h.open_ports ≡ ports
        → All (λ x. 1 ≤ length x.open_ports) (live_first ports h rest)
    split [] e = r
    split (q ∷ ports) e = (rw e (omega arith), r)

nonempty-discover_from :
    (ran : ℕ → Bool) (ctx : ℕ → Context) (dial : Addr → ℕ → Bool) (opts : Options) (i : ℕ)
    (addrs : List Addr)
    → All (λ x. 1 ≤ length x.open_ports) (discover_from ran ctx dial opts i addrs)
unfolding discover_from
nonempty-discover_from ran ctx dial opts i [] = tt
nonempty-discover_from ran ctx dial opts i (b ∷ addrs) =
    nonempty-live_first (or_host (ran i) (probe (ctx i) dial b opts)) _
      (nonempty-discover_from ran ctx dial opts (i + 1) addrs)

-- Whenever a sweep is cancelled, every host that Discover returns has an open port, and a port is
-- open on an address only if the address is one of those given, the port is one of the configured
-- ones, or of 22, 80, 135, 139, 443, 445, 515, 631, 3389, 5985, 5986, 8006, 9100 and 49000 if none
-- is configured, and a dial there succeeds; and if the sweep is not cancelled, all of these are
-- reported.
pub discover-reports :
    (ran : ℕ → Bool) (ctx : ℕ → Context) (dial : Addr → ℕ → Bool) (opts : Options)
    (addrs : List Addr) (a : Addr) (p : ℕ)
    → let swept = contains addrs a && (contains (swept_ports opts.tcp_ports) p && dial a p) in
      All (λ h. 1 ≤ length h.open_ports) (discover ran ctx dial addrs opts)
      × ((not (reports (discover ran ctx dial addrs opts) a p) || swept) ≡ true)
      × (reports (discover (λ j. true) (λ j k. false) dial addrs opts) a p ≡ swept)
unfolding discover with_defaults answers
discover-reports ran ctx dial opts addrs a p =
    let ports = sym (swept_ports-or_ports opts.tcp_ports) in
    (
      nonempty-discover_from ran ctx dial (with_defaults opts) 0 addrs,
      rw ports
          (ground (arith, reports-discover_from a p dial (with_defaults opts) ran ctx 0 addrs)),
      rw ports (reports-uncancelled a p dial (with_defaults opts) 0 addrs),
    )
