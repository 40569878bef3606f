-- ===== src/Scan/Engine.antt =====
-- internal/scan/engine.go: Run, and the rows of scan_run of internal/store/scanrun.go. The jobs run one
-- after the other, as with one worker; the schedules of more workers are those of Worker. A job that
-- the pool did not run, because the context was cancelled, leaves the zero value.
pub mod Recorded
pub mod Hosts
use motzworks.Prelude.{
  ℕ, suc, ◌+◌, Bool, true, false, List, [], ◌∷◌, ◌++◌, Option, none, some, length, if◌then◌else◌,
}
use motzworks.Text.{Text, lit, is_empty, text_eq}
use motzworks.Addr.{Addr, Netip}
use motzworks.Collector.{Credential, Registry, unset}
use motzworks.Discovery.Expand.{expand, ExpandError, Outcome}
use motzworks.Discovery.Expand as Expand
use motzworks.Discovery.Probe.{Host, Context, discover}
use motzworks.Discovery.Probe as Probe
use motzworks.Scan.Merge.{merge_hosts}
use motzworks.Scan.Process.{HostResult, State, Summary, process_host, summarize}
use motzworks.Store.Db.{Server, null_str}

pub record ScanRun : Type 0 where
  pub id : Text
  pub targets : List Text
  pub status : Text
  pub discovered : ℕ
  pub hosts_found : ℕ
  pub error : Option Text
  pub finished : Bool

-- CreateScanRun
unfoldable pub create_scan_run : Text → List Text → List ScanRun → List ScanRun
unfolding lit
create_scan_run new_id specs rows =
    rows
    ++ record {
      id = new_id;
      targets = specs;
      status = lit "running";
      discovered = 0;
      hosts_found = 0;
      error = none;
      finished = false;
    }
      ∷ []

-- SetScanDiscovered
unfoldable pub set_scan_discovered : Text → ℕ → List ScanRun → List ScanRun
set_scan_discovered id n [] = []
set_scan_discovered id n (r ∷ rows) =
    (if text_eq r.id id then record r { discovered = n } else r) ∷ set_scan_discovered id n rows

-- FinishScanRun
abbrev final_status : Text → Text → Text
final_status status err_msg = if is_empty err_msg then status else lit "failed"

unfoldable pub finish_scan_run : Text → Text → ℕ → Text → List ScanRun → List ScanRun
unfolding lit
finish_scan_run id status hosts_found err_msg [] = []
finish_scan_run id status hosts_found err_msg (r ∷ rows) =
    (if text_eq r.id id
      then record r {
        status = final_status status err_msg;
        hosts_found = hosts_found;
        error = null_str err_msg;
        finished = true;
      }
      else r)
    ∷ finish_scan_run id status hosts_found err_msg rows

pub record Options : Type 0 where
  pub specs : List Text
  pub credentials : List Credential
  pub discovery : Probe.Options
  pub probe : Option (List Addr → List Host)

pub record EngineState : Type 0 where
  pub state : State
  pub scan_run : List ScanRun

-- The statements of Run itself.
pub data RunCall : Type 0 where
  create_run set_discovered finish_run : RunCall

-- What a run meets.
pub record World : Type 0 where
  pub net : Netip
  pub fuel : ℕ
  pub server : Server
  pub events_kept : Bool
  pub registry : Registry
  pub fails : RunCall → Bool
  pub run_id : Text
  pub probe_ran : ℕ → Bool
  pub context : ℕ → Context
  pub dial : Addr → ℕ → Bool
  pub job_ran : ℕ → Bool

-- The summary, an error of Expand, an error of the store with the summary that is returned with it, or
-- no end of Expand's loops.
pub data Ran : Type 0 where
  ok : Summary → Ran
  expand_error : ExpandError → Ran
  store_error : Summary → Ran
  out_of_fuel : Ran

-- HostResult{}
abbrev pub no_result : HostResult
no_result = record {
  addr = [];
  class = unset;
  device_id = [];
  collector = [];
  changes = 0;
  error = none;
  collect_err = [];
}

-- Summary{}
abbrev pub no_summary : Summary
no_summary = record { scan_run_id = []; discovered = 0; collected = 0; persisted = 0; hosts = [] }

module _ (w : World) (opts : Options) where
  unfoldable pub run_jobs : ℕ → List Host → State → List HostResult × State
  run_jobs i [] s = ([], s)
  run_jobs i (h ∷ hs) s = elim (w.job_ran i) [
    | true ↦
        let (hr, s1) =
          process_host w.server w.events_kept w.run_id w.registry h opts.credentials s in
        let (hrs, s2) = run_jobs (i + 1) hs s1 in (hr ∷ hrs, s2)
    | false ↦ let (hrs, s2) = run_jobs (i + 1) hs s in (no_result ∷ hrs, s2)
  ]

  abbrev pub extra_hosts : Option (List Addr → List Host) → List Addr → List Host
  extra_hosts none addrs = []
  extra_hosts (some probe) addrs = probe addrs

  -- `live`
  unfoldable pub live_hosts : List Addr → List Host
  live_hosts addrs =
      merge_hosts w.server.print_addr (discover w.probe_ran w.context w.dial addrs opts.discovery)
        (extra_hosts opts.probe addrs)

  -- SetScanDiscovered; a failure is only logged.
  abbrev pub discovered_rows : ℕ → List ScanRun → List ScanRun
  discovered_rows n rows =
      if w.fails set_discovered then rows else set_scan_discovered w.run_id n rows

  abbrev pub finished_run : Summary → State → List ScanRun → Ran × EngineState
  finished_run sum s rows =
      if w.fails finish_run then (store_error sum, record { state = s; scan_run = rows }) else (
        ok sum,
        record { state = s; scan_run = finish_scan_run w.run_id (lit "ok") sum.persisted [] rows },
      )

  -- From the discovery on.
  unfoldable pub run_addrs : List Addr → State → List ScanRun → Ran × EngineState
  unfolding lit
  run_addrs addrs s rows =
      let live = live_hosts addrs in
      let (results, s') = run_jobs 0 live s in
      finished_run (summarize w.run_id (length live) results) s'
        (discovered_rows (length live) rows)

  abbrev pub expanded : Outcome (List Addr) → EngineState → Ran × EngineState
  expanded (Expand.err e) st = (expand_error e, st)
  expanded Expand.out_of_fuel st = (out_of_fuel, st)
  expanded (Expand.ok addrs) st =
      if w.fails create_run
      then (store_error no_summary, st)
      else run_addrs addrs st.state (create_scan_run w.run_id opts.specs st.scan_run)

  -- Run
  unfoldable pub run : EngineState → Ran × EngineState
  run st = expanded (expand w.net w.fuel opts.specs) st
