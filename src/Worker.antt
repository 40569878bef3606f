-- ===== src/Worker.antt =====
-- internal/worker/pool.go: `Run`, as a step relation. One state holds the loop's position, the
-- jobs whose goroutine holds a slot of the semaphore, and the slice of results. A job is its
-- outcome, `outcome i`; what is left to the scheduler and to the context is the choice of step.
pub mod Progress
pub mod Results
mod Tests
use motzworks.Prelude.Int.{ℤ, pos, negsuc}
use motzworks.Prelude.{
  ℕ, zero, suc, ◌+◌, ◌-◌, ◌≤◌, ◌<◌, ◌≡◌, refl, ◌≢◌, Bool, true, false, List, [], ◌∷◌, Option, none,
  some, arith, nat_Eq, nat_eq, ltb, contains, length, if◌then◌else◌, ◌==◌,
}

-- worker.Result: a job's value and error, or ctx.Err().
pub data JobResult {ℓ} (A : Type ℓ) : Type ℓ where
  finished : A → JobResult A
  cancelled : JobResult A

-- `if concurrency < 1 { concurrency = 1 }`
unfoldable pub slots : ℤ → ℕ
slots (pos zero) = 1
slots (pos (suc c)) = suc c
slots (negsuc c) = 1

-- `<-sem` of the goroutine of job i.
unfoldable pub release : ℕ → List ℕ → List ℕ
release i [] = []
release i (j ∷ js) = if i == j then js else j ∷ release i js

-- `dead`: the context is cancelled. `waiting`: the loop has found it alive, and waits for a slot.
pub record Pool {ℓ} (A : Type ℓ) : Type ℓ where
  pub next : ℕ
  pub dead : Bool
  pub waiting : Bool
  pub running : List ℕ
  pub results : ℕ → Option (JobResult A)

module _ {ℓ} {A : Type ℓ} where
  abbrev pub init : Pool A
  init = record { next = 0; dead = false; waiting = false; running = []; results = λ i. none }

  -- results[i] = r
  unfoldable pub write : (ℕ → Option (JobResult A)) → ℕ → JobResult A → ℕ → Option (JobResult A)
  write rs i r j = if i == j then some r else rs j

-- Run of n jobs with c slots.
module _ {ℓ} {A : Type ℓ} (outcome : ℕ → A) (n : ℕ) (c : ℤ) where
  pub data Step : Pool A → Pool A → Type ℓ where
    -- The environment cancels the context.
    cancel : (p : Pool A) → p.dead ≡ false → Step p (record p { dead = true })
    -- ctx.Err() != nil: the job is not started.
    skip :
        (p : Pool A)
        → p.next < n
        → p.waiting ≡ false
        → p.dead ≡ true
        → Step p (record p { next = p.next + 1; results = write p.results p.next cancelled })
    -- ctx.Err() == nil: the loop goes on to the semaphore.
    pass :
        (p : Pool A)
        → p.next < n
        → p.waiting ≡ false
        → p.dead ≡ false
        → Step p (record p { waiting = true })
    -- `sem <- struct{}{}` succeeds while a slot is free; then the goroutine starts.
    launch :
        (p : Pool A)
        → p.waiting ≡ true
        → length p.running < slots c
        → Step p (record p { next = p.next + 1; waiting = false; running = p.next ∷ p.running })
    -- A goroutine writes its result and frees its slot.
    finish :
        (p : Pool A) (i : ℕ)
        → contains p.running i ≡ true
        → Step p (record p {
          running = release i p.running;
          results = write p.results i (finished (outcome i));
        })

  pub data Reach (p : Pool A) : Pool A → Type ℓ where
    here : Reach p p
    step : {q r : Pool A} → Reach p q → Step q r → Reach p r

  -- The loop is over and wg.Wait() has returned.
  pub record IsDone (p : Pool A) : Type ℓ where
    pub looped : p.next ≡ n
    pub idle : p.waiting ≡ false
    pub waited : p.running ≡ []
