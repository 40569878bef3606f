-- ===== src/Scan/Tests.antt =====
-- Examples for the theorems on the engine.
use motzworks.Prelude.{
  ℕ, ◌≡◌, refl, true, false, ◌||◌, List, [], ◌∷◌, some, none, Distinct, contains, map,
}
use motzworks.Text.{Text, text_Eq, join}
use motzworks.Addr.{Addr, ip4}
use motzworks.Collector
use motzworks.Collector.{
  Collector, Target, Registry, Result, CollectError, no_credential, failure, linux, supporting,
  for_class,
}
use motzworks.Prelude.Int.{pos}
use motzworks.Discovery.Expand.{expand, expand_specs}
use motzworks.Discovery.Expand as Expand
use motzworks.Discovery.Probe.{discover}
use motzworks.Scan.Engine.{World, Options, EngineState, Ran, no_summary, run, run_addrs}
use motzworks.Scan.Engine as Engine
use motzworks.Scan.Engine.Recorded.{IsUnused, IsRecorded, run-IsRecorded}
use motzworks.Scan.Engine.Hosts.{run_hosts}
use motzworks.Fingerprint.{classify_by_ports}
use motzworks.Discovery.Probe.{Host}
use motzworks.Scan.Merge.{keys}
use motzworks.Scan.Process.{State, Summary, target, process_host}
use motzworks.Scan.Outcome.{AllFail, messages, process_host-AllFail}
use motzworks.Store.Samples.{server, sample_db}

abbrev print : Addr → Text
print a = a.value ∷ []

abbrev host : ℕ → List ℕ → Host
host n ports = record { addr = record { family = ip4; value = n }; open_ports = ports }

-- One collector that fails on every Linux host.
abbrev failing : Collector
failing = record {
  name = b'f' ∷ [];
  supports = λ c. true;
  collect = λ t. Collector.err (failure (b'!' ∷ []));
}

abbrev registry : Registry
registry = record { collectors = failing ∷ [] }

abbrev state : State
state = record { db = sample_db; scan_event = [] }

abbrev aim : Target
aim = target (server none) true [] (host 3 (22 ∷ [])) []

failing-AllFail : AllFail aim (failing ∷ [])
failing-AllFail = record { errors_of = ((_, refl), tt) }

for_class_failing : AllFail aim (for_class registry (classify_by_ports (22 ∷ [])))
unfolding for_class supporting
for_class_failing = failing-AllFail

process_host-AllFail_example :
    let r = process_host (server none) true [] registry (host 3 (22 ∷ [])) [] state in
    (r.1.db.children ≡ sample_db.children)
    × (r.0.collector ≡ [])
    × (r.0.collect_err
        ≡ join (b';' ∷ b' ' ∷ []) (messages aim (for_class registry (classify_by_ports (22 ∷ [])))))
process_host-AllFail_example =
    process_host-AllFail (server none) true [] registry (host 3 (22 ∷ [])) [] state
      for_class_failing

-- A run without specs, whose probe reports one host.
abbrev world : World
world = record {
  net = record { parse_addr = λ s. none; parse_prefix = λ s. none; print_addr = λ a. [] };
  fuel = 1;
  server = server none;
  events_kept = true;
  registry = registry;
  fails = λ call. false;
  run_id = b'r' ∷ [];
  probe_ran = λ j. true;
  context = λ j k. false;
  dial = λ a p. false;
  job_ran = λ j. true;
}

abbrev options : Options
options = record {
  specs = [];
  credentials = [];
  discovery = record {
    tcp_ports = [];
    timeout = pos 0;
    concurrency = pos 0;
    rate_per_sec = pos 0;
    jitter = pos 0;
  };
  probe = some (λ addrs. host 3 (161 ∷ []) ∷ []);
}

abbrev before : EngineState
before = record { state = state; scan_run = [] }

abbrev summary_or : Ran → Summary
summary_or (Engine.ok sum) = sum
summary_or r = no_summary

abbrev total : Summary
total = summary_or (run world options before).0

run_ok : (run world options before).0 ≡ Engine.ok total
unfolding run run_addrs expand expand_specs
run_ok = refl

no_row : IsUnused (b'r' ∷ []) []
unfolding IsUnused
no_row = tt

run-IsRecorded_example : IsRecorded world options before total
run-IsRecorded_example = run-IsRecorded world options before total no_row run_ok

run_hosts_example :
    (addrs : List Addr) × (expand world.net 1 [] ≡ Expand.ok addrs)
    × Distinct (map (λ hr. hr.addr) total.hosts)
    × (contains (map (λ hr. hr.addr) total.hosts) (3 ∷ []) ≡ (
        contains
          (keys world.server.print_addr
            (discover world.probe_ran world.context world.dial addrs options.discovery))
          (3 ∷ [])
        || contains (keys world.server.print_addr (host 3 (161 ∷ []) ∷ [])) (3 ∷ [])))
run_hosts_example = run_hosts world options before total (3 ∷ []) (λ j. refl) run_ok
