-- ===== src/Scheduler/Tests.antt =====
-- Examples for the theorems on a tick of the scheduler.
use motzworks.Prelude.{
  ℕ, ◌≡◌, refl, Bool, true, false, List, [], ◌∷◌, none, some, arith, All, nat_eq,
}
use motzworks.Prelude.Int.{ℤ, pos, ltb_ℤ, ◌+ℤ◌}
use motzworks.Collector.{Credential}
use motzworks.Store.Targets.{StoredCredential, Tables, list_credentials, due_schedules}
use motzworks.Store.Samples.{inserted}
use motzworks.Scheduler.{Scheduler, run_due}
use motzworks.Scheduler.Rests.{Rests, AtLeast, at_tick, run_due-Rests}
use motzworks.Scheduler.Tick.{calls, run_due-calls}

abbrev plain : Scheduler
plain = record { tick = pos 30; concurrency = pos 32; rate_per_sec = pos 0; jitter = pos 0 }

abbrev decrypt : List StoredCredential → List Credential
decrypt cs = []

-- Two schedules of one target: one is due at 100, the other is not.
abbrev tables : Tables
tables = record {
  scan_target = record { id = b't' ∷ []; name = []; cidrs = (b'h' ∷ []) ∷ []; enabled = true } ∷ [];
  credential = [];
  schedule =
      record {
        id = b'a' ∷ [];
        scan_target_id = b't' ∷ [];
        interval_secs = pos 60;
        enabled = true;
        next_run_at = none;
      }
      ∷ record {
        id = b'b' ∷ [];
        scan_target_id = b't' ∷ [];
        interval_secs = pos 90;
        enabled = true;
        next_run_at = some (pos 500);
      }
      ∷ [];
}

abbrev clock : ℕ → ℤ
clock k = pos 100

-- The third statement of the tick, if there were one, would fail.
abbrev fails : ℕ → Bool
fails k = nat_eq k 3

sums : (ltb_ℤ (pos 159) (clock 0 +ℤ pos 60) ≡ true) × (ltb_ℤ (pos 100) (clock 0 +ℤ pos 60) ≡ true)
unfolding ◌+ℤ◌
sums = (refl, refl)

tables-AtLeast : AtLeast (pos 60) tables.schedule
unfolding AtLeast
tables-AtLeast = (omega arith, (omega arith, tt))

run_due-Rests_example :
    let w = run_due plain decrypt inserted fails clock (at_tick tables) in
    All (λ c. Rests (pos 159) c.0 w.tables.schedule) w.scans
run_due-Rests_example =
    run_due-Rests plain decrypt inserted fails clock (pos 159) (pos 60) (λ k. omega arith) sums.0
      tables tables-AtLeast

run_due-calls_example :
    let w = run_due plain decrypt inserted (λ k. false) clock (at_tick tables) in
    (w.scans
      ≡ calls plain decrypt inserted
          (decrypt (list_credentials inserted tables))
          (due_schedules (clock 0) tables))
    × (due_schedules (clock 0) w.tables ≡ [])
run_due-calls_example =
    run_due-calls plain decrypt inserted (λ k. false) clock (pos 60) tables (λ k. refl)
      (λ k. omega arith) sums.1 tables-AtLeast
