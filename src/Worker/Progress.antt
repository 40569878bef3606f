-- ===== src/Worker/Progress.antt =====
-- `Run` does not block for ever: until it is done some step can be taken, and every step uses up
-- the work that is left.
use motzworks.Prelude.Int.{ℤ}
use motzworks.Prelude.{
  ℕ, suc, ◌+◌, ◌-◌, ◌*◌, ◌≤◌, ◌<◌, ◌≡◌, refl, ◌⊎◌, inl, inr, true, List, [], ◌∷◌, arith, nat_Eq,
  ltb, contains, length, Bool-cases, if◌then◌else◌,
}
use motzworks.Worker.{Pool, init, release, Step, cancel, skip, pass, launch, finish, Reach, IsDone}
use motzworks.Worker.Results.{slots_pos, init-Inv, Reach-Inv}

-- Each job is looked at once and finished once.
abbrev pub work {ℓ} : {A : Type ℓ} → ℕ → Pool A → ℕ
work n p =
    3 * (n - p.next) + length p.running + (if p.waiting then 0 else 1) + (if p.dead then 0 else 1)

length-release_mem :
    (i : ℕ) (js : List ℕ) → contains js i ≡ true → suc (length (release i js)) ≡ length js
unfolding contains release
length-release_mem i [] h = cc
length-release_mem i (j ∷ js) h = ground (arith, length-release_mem i js)

first_running : (j : ℕ) (js : List ℕ) → contains (j ∷ js) j ≡ true
unfolding contains
first_running j js = ground arith

module _ {ℓ} {A : Type ℓ} (outcome : ℕ → A) (n : ℕ) (c : ℤ) where
  Step-work :
      {p q : Pool A} → Step outcome n c p q → (p.waiting ≡ true → p.next < n) → work n q < work n p
  Step-work (cancel p alive) w = rw alive (omega arith)
  Step-work (skip p h idle dead) w = rw (idle, dead) (omega arith)
  Step-work (pass p h idle alive) w = rw (idle, alive) (omega arith)
  Step-work (launch p waits free) w = let lt = w waits in rw waits (omega arith)
  Step-work (finish p i m) w = omega (arith, length-release_mem i p.running m)

  onward :
      (p : Pool A)
      → p.next ≤ n
      → (p.waiting ≡ true → p.next < n)
      → (js : List ℕ) → p.running ≡ js
      → IsDone outcome n c p ⊎ ((q : Pool A) × Step outcome n c p q)
  onward p h w (j ∷ js) e = inr (_, finish p j (rw e (first_running j js)))
  onward p h w [] e = elim (Bool-cases p.waiting) [
    | inl waits ↦ inr (_, launch p waits (rw e (slots_pos c)))
    | inr idle ↦ elim (Bool-cases (ltb p.next n)) [
      | inr over ↦ inl (record { looped = ground arith; idle = idle; waited = e })
      | inl more ↦ elim (Bool-cases p.dead) [
        | inl dead ↦ inr (_, skip p (ground arith) idle dead)
        | inr alive ↦ inr (_, pass p (ground arith) idle alive)
      ]
    ]
  ]

  -- From every state that Run can be in and that is not the end, a step leads on, and every step
  -- lowers the work that is left: whatever the schedule, Run ends.
  pub run_progress :
      {p : Pool A}
      → Reach outcome n c init p
      → (IsDone outcome n c p ⊎ ((q : Pool A) × Step outcome n c p q))
        × ((q : Pool A) → Step outcome n c p q → work n q < work n p)
  run_progress {p} r =
      let v = Reach-Inv outcome n c r (init-Inv outcome n c) in
      (onward p v.position v.awaited p.running refl, λ q s. Step-work s v.awaited)
