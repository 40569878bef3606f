-- ===== src/Discovery/Probe.antt =====
-- internal/discovery/discovery.go: `Host`, `HasPort`, `Options`, `withDefaults` and `probe`.
-- A dial and the state of the context at each moment are parameters.
use motzworks.Prelude.{
  ℕ, suc, ◌+◌, Bool, true, false, List, [], ◌∷◌, nat_Eq, contains, if◌then◌else◌,
}
use motzworks.Prelude.Int.{ℤ, pos}
use motzworks.Addr.{Addr, invalid}

-- DefaultTCPPorts
abbrev pub default_tcp_ports : List ℕ
default_tcp_ports =
    22 ∷ 80 ∷ 135 ∷ 139 ∷ 443 ∷ 445 ∷ 515 ∷ 631 ∷ 3389 ∷ 5985 ∷ 5986 ∷ 8006 ∷ 9100 ∷ 49000 ∷ []

pub record Host : Type 0 where
  pub addr : Addr
  pub open_ports : List ℕ

-- The zero value of Host.
abbrev pub no_host : Host
no_host = record { addr = invalid; open_ports = [] }

-- Host.HasPort
unfoldable pub has_port : Host → ℕ → Bool
has_port h port = contains h.open_ports port

-- Durations are nanoseconds.
pub record Options : Type 0 where
  pub tcp_ports : List ℕ
  pub timeout : ℤ
  pub concurrency : ℤ
  pub rate_per_sec : ℤ
  pub jitter : ℤ

abbrev or_default : ℤ → ℕ → ℤ
or_default (pos (suc n)) d = pos (suc n)
or_default n d = pos d

abbrev pub or_ports : List ℕ → List ℕ
or_ports [] = default_tcp_ports
or_ports (p ∷ ports) = p ∷ ports

-- Options.withDefaults
unfoldable pub with_defaults : Options → Options
with_defaults o = record o {
  tcp_ports = or_ports o.tcp_ports;
  timeout = or_default o.timeout 2_000_000_000;
  concurrency = or_default o.concurrency 256;
}

-- A context seen from one job: whether it is cancelled when the k-th port is about to be dialled.
abbrev pub Context : Type 0
Context = ℕ → Bool

unfoldable pub probe_from : Context → (ℕ → Bool) → ℕ → List ℕ → List ℕ
probe_from done dial k [] = []
probe_from done dial k (port ∷ ports) =
    let rest = probe_from done dial (k + 1) ports in
    if done k then [] else if dial port then port ∷ rest else rest

unfoldable pub probe : Context → (Addr → ℕ → Bool) → Addr → Options → Host
unfolding probe_from
probe done dial a opts = record { addr = a; open_ports = probe_from done (dial a) 0 opts.tcp_ports }

abbrev pub or_host : Bool → Host → Host
or_host true h = h
or_host false h = no_host

-- `if len(r.Value.OpenPorts) > 0 { live = append(live, r.Value) }`
abbrev pub live_first : List ℕ → Host → List Host → List Host
live_first [] h rest = rest
live_first (p ∷ ps) h rest = h ∷ rest

-- Discover. `ran i` says whether the pool ran the i-th job (Worker); a job that was cancelled
-- leaves the zero value. Rate limit and jitter only delay a job.
module _ (ran : ℕ → Bool) (ctx : ℕ → Context) (dial : Addr → ℕ → Bool) (opts : Options) where
  unfoldable pub discover_from : ℕ → List Addr → List Host
  discover_from i [] = []
  discover_from i (a ∷ rest) =
      let h = or_host (ran i) (probe (ctx i) dial a opts) in
      live_first h.open_ports h (discover_from (i + 1) rest)

unfoldable pub discover :
    (ℕ → Bool) → (ℕ → Context) → (Addr → ℕ → Bool) → List Addr → Options → List Host
unfolding discover_from
discover ran ctx dial addrs opts = discover_from ran ctx dial (with_defaults opts) 0 addrs
