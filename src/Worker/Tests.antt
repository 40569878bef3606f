-- ===== src/Worker/Tests.antt =====
-- Examples for the theorems on the worker pool.
use motzworks.Prelude.{ℕ, ◌+◌, ◌≤◌, ◌<◌, ◌⊎◌, refl, true, [], ◌∷◌, arith, contains, length}
use motzworks.Prelude.Int.{pos}
use motzworks.Worker.{
  Pool, init, Step, pass, launch, cancel, skip, finish, Reach, here, step, IsDone, finished,
  cancelled, write, release, slots,
}
use motzworks.Worker.Results.{Answers, run_bounded, run_results}
use motzworks.Worker.Progress.{work, run_progress}

abbrev outcome : ℕ → ℕ
outcome i = i + 10

-- One slot and two jobs: the first job runs, the context is cancelled, the second is skipped, and
-- the first ends.
abbrev started : Pool ℕ
started = record init { next = 1; running = 0 ∷ [] }

abbrev stopped : Pool ℕ
stopped = record started { dead = true; next = 2; results = write init.results 1 cancelled }

abbrev ended : Pool ℕ
ended = record stopped {
  running = release 0 (0 ∷ []);
  results = write stopped.results 0 (finished (outcome 0));
}

run_started : Reach outcome 2 (pos 1) init started
unfolding slots
run_started =
    step (step here (pass init (omega arith) refl refl))
      (launch (record init { waiting = true }) refl (omega arith))

run_ended : Reach outcome 2 (pos 1) init ended
unfolding contains
run_ended =
    step
      (step (step run_started (cancel started refl))
        (skip (record started { dead = true }) (omega arith) refl refl))
      (finish stopped 0 refl)

ended-IsDone : IsDone outcome 2 (pos 1) ended
unfolding release
ended-IsDone = record { looped = refl; idle = refl; waited = refl }

run_bounded_example : length started.running ≤ slots (pos 1)
run_bounded_example = run_bounded outcome 2 (pos 1) run_started

run_results_example : Answers outcome 2 (pos 1) true 1 (ended.results 1)
run_results_example = run_results outcome 2 (pos 1) run_ended ended-IsDone 1 (omega arith)

run_progress_example :
    (IsDone outcome 2 (pos 1) started ⊎ ((q : Pool ℕ) × Step outcome 2 (pos 1) started q))
    × ((q : Pool ℕ) → Step outcome 2 (pos 1) started q → work 2 q < work 2 started)
run_progress_example = run_progress outcome 2 (pos 1) run_started
