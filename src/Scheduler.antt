-- ===== src/Scheduler.antt =====
-- internal/scheduler/scheduler.go: New and one tick, runDue. Whether the k-th statement of a tick
-- fails, and the database's clock at it, are parameters; a scan is the entry that it leaves in the
-- list of the calls of engine.Run, and its own statements touch no schedule.
pub mod Rests
pub mod Tick
mod Tests
use motzworks.Prelude.{
  ℕ, suc, ◌+◌, ◌≡◌, refl, Bool, true, false, List, [], ◌∷◌, ◌++◌, Option, none, some, arith,
  if◌then◌else◌,
}
use motzworks.Prelude.Int.{ℤ, pos, negsuc}
use motzworks.Text.{Text}
use motzworks.Collector.{Credential}
use motzworks.Store.Targets.{
  Orders, StoredCredential, Schedule, DueSchedule, Tables, due_schedules, advance_schedule,
  list_credentials,
}
use motzworks.Scan.Credentials.{snmp_probe}

-- Durations are nanoseconds.
pub record Scheduler : Type 0 where
  pub tick : ℤ
  pub concurrency : ℤ
  pub rate_per_sec : ℤ
  pub jitter : ℤ

abbrev pub positive_or : ℤ → ℕ → ℤ
positive_or (pos (suc n)) d = pos (suc n)
positive_or n d = pos d

-- New
unfoldable pub new : ℤ → ℤ → ℤ → ℤ → Scheduler
new tick concurrency rate_per_sec jitter = record {
  tick = positive_or tick 30_000_000_000;
  concurrency = positive_or concurrency 32;
  rate_per_sec = rate_per_sec;
  jitter = jitter;
}

-- scan.Options, with the credential of the probe for the probe.
pub record ScanOptions : Type 0 where
  pub specs : List Text
  pub credentials : List Credential
  pub collect_workers : ℤ
  pub probe : Option Credential
  pub rate_per_sec : ℤ
  pub jitter : ℤ

pub record World : Type 0 where
  pub tables : Tables
  pub scans : List (Text × ScanOptions)
  pub statement : ℕ

-- `if len(d.CIDRs) == 0 { continue }`, then engine.Run
abbrev pub scanned :
    List Text → Text × ScanOptions → List (Text × ScanOptions) → List (Text × ScanOptions)
scanned [] call calls = calls
scanned (c ∷ cs) call calls = calls ++ call ∷ []

module _ (s : Scheduler) (decrypt : List StoredCredential → List Credential) (orders : Orders) where
  unfoldable pub scan_options : List Credential → DueSchedule → ScanOptions
  scan_options creds d = record {
    specs = d.cidrs;
    credentials = creds;
    collect_workers = s.concurrency;
    probe = snmp_probe creds;
    rate_per_sec = s.rate_per_sec;
    jitter = s.jitter;
  }

  module _ (fails : ℕ → Bool) (clock : ℕ → ℤ) where
    -- One round of the loop.
    unfoldable pub run_one : List Credential → DueSchedule → World → World
    run_one creds d w =
        if fails w.statement then record w { statement = suc w.statement } else record {
          tables = advance_schedule (clock w.statement) d.schedule_id d.interval_secs w.tables;
          scans = scanned d.cidrs (d.schedule_id, scan_options creds d) w.scans;
          statement = suc w.statement;
        }

    unfoldable pub run_all : List Credential → List DueSchedule → World → World
    run_all creds [] w = w
    run_all creds (d ∷ due) w = run_all creds due (run_one creds d w)

    abbrev pub with_credentials : List DueSchedule → World → World
    with_credentials [] w = w
    with_credentials (d ∷ due) w =
        if fails w.statement
        then w
        else run_all (decrypt (list_credentials orders w.tables)) (d ∷ due)
            (record w { statement = suc w.statement })

    -- runDue
    unfoldable pub run_due : World → World
    run_due w =
        if fails w.statement
        then w
        else with_credentials (due_schedules (clock w.statement) w.tables)
            (record w { statement = suc w.statement })
