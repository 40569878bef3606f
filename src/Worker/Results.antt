-- ===== src/Worker/Results.antt =====
-- What `Run` returns: one result for each job, that job's own or the context's error; and no more
-- goroutines at once than there are slots.
use motzworks.Prelude.Int.{ℤ, pos, negsuc}
use motzworks.Prelude.{
  ℕ, zero, suc, ◌≤◌, ◌<◌, ◌≡◌, ◌∙◌, refl, ◌≢◌, ◌⊎◌, inl, inr, Bool, true, false, List, [], ◌∷◌,
  Option, some, arith, nat_Eq, nat_eq, contains, length, Bool-cases,
}
use motzworks.Worker.{
  JobResult, finished, cancelled, slots, Pool, init, write, release, Step, cancel, skip, pass,
  launch, finish, Reach, here, step, IsDone,
}

length-release : (i : ℕ) (js : List ℕ) → length (release i js) ≤ length js
unfolding release
length-release i [] = omega arith
length-release i (j ∷ js) = ground (arith, length-release i js)

contains-release : (i k : ℕ) (js : List ℕ) → contains (release i js) k ≡ true → contains js k ≡ true
unfolding release contains
contains-release i k [] h = h
contains-release i k (j ∷ js) h = ground (arith, contains-release i k js)

contains-release_ne : (i k : ℕ) (js : List ℕ) → i ≢ k → contains (release i js) k ≡ contains js k
unfolding release contains
contains-release_ne i k [] h = refl
contains-release_ne i k (j ∷ js) h = ground (arith, contains-release_ne i k js)

pub slots_pos : (c : ℤ) → 1 ≤ slots c
unfolding slots
slots_pos (pos zero) = omega arith
slots_pos (pos (suc c)) = omega arith
slots_pos (negsuc c) = omega arith

module _ {ℓ} {A : Type ℓ} where
  write_hit :
      (rs : ℕ → Option (JobResult A)) (i k : ℕ) (r : JobResult A)
      → nat_eq i k ≡ true
      → write rs i r k ≡ some r
  unfolding write
  write_hit rs i k r e = rw e

  write_miss :
      (rs : ℕ → Option (JobResult A)) (i k : ℕ) (r : JobResult A)
      → nat_eq i k ≡ false
      → write rs i r k ≡ rs k
  unfolding write
  write_miss rs i k r e = rw e

module _ {ℓ} {A : Type ℓ} (outcome : ℕ → A) (n : ℕ) (c : ℤ) where
  -- What may stand at an index of the results; `dead` says whether the context was cancelled.
  abbrev pub Answers : Bool → ℕ → Option (JobResult A) → Type ℓ
  Answers dead i r = (r ≡ some (finished (outcome i))) ⊎ ((dead ≡ true) × (r ≡ some cancelled))

  pub record Inv (p : Pool A) : Type ℓ where
    pub position : p.next ≤ n
    pub awaited : p.waiting ≡ true → p.next < n
    pub bounded : length p.running ≤ slots c
    pub started : (i : ℕ) → contains p.running i ≡ true → i < p.next
    pub answered :
        (i : ℕ) → i < p.next → contains p.running i ≡ false → Answers p.dead i (p.results i)

  pub init-Inv : Inv init
  unfolding contains slots
  init-Inv = record {
    position = omega arith;
    awaited = λ e. cc;
    bounded = omega arith;
    started = λ i h. cc;
    answered = λ i h _. absurd (omega arith);
  }

  Step-Inv : {p q : Pool A} → Step outcome n c p q → Inv p → Inv q
  unfolding contains
  Step-Inv (cancel p alive) v = record {
    position = v.position;
    awaited = v.awaited;
    bounded = v.bounded;
    started = v.started;
    answered = λ i lt m. elim (v.answered i lt m) [ inl done ↦ inl done | inr (dead, _) ↦ cc ];
  }
  Step-Inv (skip p h idle dead) v = record {
    position = omega arith;
    awaited = λ e. cc;
    bounded = v.bounded;
    started = λ i m. ground (arith, v.started i m);
    answered = λ i lt m. elim (Bool-cases (nat_eq p.next i)) [
      | inl e ↦ inr (dead, write_hit p.results p.next i cancelled e)
      | inr e ↦ rw (write_miss p.results p.next i cancelled e) (v.answered i (ground arith) m)
    ];
  }
  Step-Inv (pass p h idle alive) v = record {
    position = v.position;
    awaited = λ e. h;
    bounded = v.bounded;
    started = v.started;
    answered = v.answered;
  }
  Step-Inv (launch p waits free) v = record {
    position = omega (arith, v.awaited waits);
    awaited = λ e. cc;
    bounded = omega arith;
    started = λ i m. ground (arith, v.started i);
    answered = λ i lt m. v.answered i (ground arith) (ground arith);
  }
  Step-Inv (finish p i m) v = record {
    position = v.position;
    awaited = v.awaited;
    bounded = omega (arith, v.bounded, length-release i p.running);
    started = λ k h. v.started k (contains-release i k p.running h);
    answered = λ k lt h. elim (Bool-cases (nat_eq i k)) [
      | inl e ↦
          let same : i ≡ k = ground arith in
          inl (write_hit p.results i k (finished (outcome i)) e ∙ rw same)
      | inr e ↦
          rw (write_miss p.results i k (finished (outcome i)) e)
            (v.answered k lt (ground (arith, contains-release_ne i k p.running)))
    ];
  }

  pub Reach-Inv : {p q : Pool A} → Reach outcome n c p q → Inv p → Inv q
  Reach-Inv here v = v
  Reach-Inv (step r s) v = Step-Inv s (Reach-Inv r v)

  -- In every state that Run can reach at most max(concurrency, 1) jobs run.
  pub run_bounded : {p : Pool A} → Reach outcome n c init p → length p.running ≤ slots c
  run_bounded r = Inv.bounded (Reach-Inv r init-Inv)

  -- When Run is done, every job has one result: what it returned or, only if the context was
  -- cancelled, the context's error.
  pub run_results :
      {p : Pool A}
      → Reach outcome n c init p
      → IsDone outcome n c p
      → (i : ℕ) → i < n
      → Answers p.dead i (p.results i)
  unfolding contains
  run_results {p} r d i lt =
      let v : Inv p = Reach-Inv r init-Inv in
      v.answered i (omega (arith, d.looped)) (rw (d.waited) refl)
