-- ===== src/Scheduler/Tick.antt =====
-- A tick in which every statement succeeds.
use motzworks.Prelude.{
  ℕ, ◌≡◌, ◌∙◌, sym, ap, subst, refl, ◌⊎◌, Bool, true, false, ◌&&◌, ◌||◌, List, [], ◌∷◌, ◌++◌,
  append_assoc, append-nil, arith, All, Bool-cases, inl, inr,
}
use motzworks.Prelude.Int.{ℤ, ltb_ℤ, ◌+ℤ◌, ◌≤ℤ◌}
use motzworks.Text.{Text, text_eq, text_eq_iff}
use motzworks.Collector.{Credential}
use motzworks.Store.Targets.{
  Orders, StoredCredential, ScanTarget, Schedule, DueSchedule, Tables, is_due, joined, due_of,
  due_schedules, advance, advance_schedule, list_credentials,
}
use motzworks.Scheduler.{
  Scheduler, ScanOptions, World, scan_options, scanned, run_one, run_all, with_credentials, run_due,
}
use motzworks.Scheduler.Rests.{at_tick, AtLeast, DueAtLeast, due_of-DueAtLeast, ltb-sum}

listed : Text → List DueSchedule → Bool
listed id [] = false
listed id (d ∷ due) = text_eq id d.schedule_id || listed id due

listed-append :
    (id : Text) (xs due : List DueSchedule) → listed id due ≡ true → listed id (xs ++ due) ≡ true
unfolding listed
listed-append id [] due h = h
listed-append id (x ∷ xs) due h = rw (listed-append id xs due h) (ground arith)

-- A row that is due and has a target is still to be advanced.
Pending : ℤ → List ScanTarget → List DueSchedule → List Schedule → Type 0
Pending u ts due rows =
    All (λ r. is_due u r ≡ true → (joined r ts ≡ []) ⊎ (listed r.id due ≡ true)) rows

module _ (u : ℤ) (ts : List ScanTarget) where
  Pending-append :
      (xs due : List DueSchedule) (rows : List Schedule)
      → Pending u ts due rows
      → Pending u ts (xs ++ due) rows
  unfolding Pending
  Pending-append xs due [] h = tt
  Pending-append xs due (r ∷ rows) (h, hs) = (
    λ e. elim (h e) [ inl none_due ↦ inl none_due | inr l ↦ inr (listed-append r.id xs due l) ],
    Pending-append xs due rows hs,
  )

  joined-listed :
      (r : Schedule) (ts' : List ScanTarget) (rest : List DueSchedule)
      → (joined r ts' ≡ []) ⊎ (listed r.id (joined r ts' ++ rest) ≡ true)
  unfolding joined listed
  joined-listed r [] rest = inl refl
  joined-listed r (t ∷ ts') rest = elim (Bool-cases (text_eq t.id r.scan_target_id && t.enabled)) [
    | inl hit ↦ inr (rw (hit, (text_eq_iff r.id r.id).1 refl) refl)
    | inr miss ↦ rw miss (joined-listed r ts' rest)
  ]

  due_of-hit :
      (r : Schedule) (rows : List Schedule)
      → is_due u r ≡ true
      → due_of u ts (r ∷ rows) ≡ joined r ts ++ due_of u ts rows
  unfolding due_of
  due_of-hit r rows e = rw e refl

  due_of-miss :
      (r : Schedule) (rows : List Schedule)
      → is_due u r ≡ false
      → due_of u ts (r ∷ rows) ≡ due_of u ts rows
  unfolding due_of
  due_of-miss r rows e = rw e refl

  due_of-Pending : (rows : List Schedule) → Pending u ts (due_of u ts rows) rows
  unfolding Pending
  due_of-Pending [] = tt
  due_of-Pending (r ∷ rows) = elim (Bool-cases (is_due u r)) [
    | inl due ↦
        subst (λ l. Pending u ts l (r ∷ rows)) (sym (due_of-hit r rows due))
          (
            λ e. joined-listed r ts (due_of u ts rows),
            Pending-append (joined r ts) (due_of u ts rows) rows (due_of-Pending rows),
          )
    | inr rests ↦
        subst (λ l. Pending u ts l (r ∷ rows)) (sym (due_of-miss r rows rests))
          (λ e. absurd (ground arith), due_of-Pending rows)
  ]

  Pending-advance :
      (now : ℤ) (d : DueSchedule) (due : List DueSchedule) (rows : List Schedule)
      → ltb_ℤ u (now +ℤ d.interval_secs) ≡ true
      → Pending u ts (d ∷ due) rows
      → Pending u ts due (advance now d.schedule_id d.interval_secs rows)
  unfolding Pending advance is_due listed
  Pending-advance now d due [] lt h = tt
  Pending-advance now d due (r ∷ rows) lt (h, hs) = elim (Bool-cases (text_eq r.id d.schedule_id)) [
    | inl hit ↦ rw (hit, lt) (λ e. absurd (ground arith), Pending-advance now d due rows lt hs)
    | inr miss ↦ rw miss (
      λ e. elim (h e) [ inl none_due ↦ inl none_due | inr l ↦ inr (ground arith) ],
      Pending-advance now d due rows lt hs,
    )
  ]

  due_of_none : (rows : List Schedule) → Pending u ts [] rows → due_of u ts rows ≡ []
  unfolding Pending due_of listed
  due_of_none [] h = refl
  due_of_none (r ∷ rows) (h, hs) = elim (Bool-cases (is_due u r)) [
    | inl due ↦ elim (h due) [
      | inl none_due ↦ rw (due, none_due, due_of_none rows hs) refl
      | inr l ↦ absurd (ground arith)
    ]
    | inr rests ↦ rw (rests, due_of_none rows hs) refl
  ]

module _ (s : Scheduler) (decrypt : List StoredCredential → List Credential) (orders : Orders) where
  -- The scans of a tick: one for each due schedule whose target has specs, in their order.
  pub calls : List Credential → List DueSchedule → List (Text × ScanOptions)
  calls creds [] = []
  calls creds (d ∷ due) =
      scanned d.cidrs (d.schedule_id, scan_options s decrypt orders creds d) [] ++ calls creds due

  scanned-append :
      (cidrs : List Text) (c : Text × ScanOptions) (before after : List (Text × ScanOptions))
      → scanned cidrs c before ++ after ≡ before ++ (scanned cidrs c [] ++ after)
  scanned-append [] c before after = refl
  scanned-append (x ∷ cidrs) c before after = append_assoc before (c ∷ []) after

  module _ (fails : ℕ → Bool) (clock : ℕ → ℤ) (up : (k : ℕ) → fails k ≡ false) where
    run_one-scans :
        (creds : List Credential) (d : DueSchedule) (w : World)
        → (run_one s decrypt orders fails clock creds d w).scans
          ≡ scanned d.cidrs (d.schedule_id, scan_options s decrypt orders creds d) w.scans
    unfolding run_one
    run_one-scans creds d w = rw (up w.statement) refl

    run_one-tables :
        (creds : List Credential) (d : DueSchedule) (w : World)
        → (run_one s decrypt orders fails clock creds d w).tables
          ≡ advance_schedule (clock w.statement) d.schedule_id d.interval_secs w.tables
    unfolding run_one
    run_one-tables creds d w = rw (up w.statement) refl

    run_all-calls :
        (creds : List Credential) (due : List DueSchedule) (w : World)
        → (run_all s decrypt orders fails clock creds due w).scans ≡ w.scans ++ calls creds due
    unfolding run_all calls
    run_all-calls creds [] w = sym (append-nil w.scans)
    run_all-calls creds (d ∷ due) w =
        run_all-calls creds due (run_one s decrypt orders fails clock creds d w)
        ∙ (ap (λ l. l ++ calls creds due) (run_one-scans creds d w)
            ∙ scanned-append d.cidrs (d.schedule_id, scan_options s decrypt orders creds d) w.scans
                (calls creds due))

    module _ (u m : ℤ) (later : (k : ℕ) → clock 0 ≤ℤ clock k)
        (h : ltb_ℤ u (clock 0 +ℤ m) ≡ true) where
      run_all_none_due :
          (creds : List Credential) (due : List DueSchedule) (w : World)
          → DueAtLeast m due
          → Pending u w.tables.scan_target due w.tables.schedule
          → due_schedules u (run_all s decrypt orders fails clock creds due w).tables ≡ []
      unfolding run_all DueAtLeast due_schedules advance_schedule
      run_all_none_due creds [] w long pending =
          due_of_none u w.tables.scan_target w.tables.schedule pending
      run_all_none_due creds (d ∷ due) w (long, longs) pending =
          let k = clock w.statement in
          let lt = ltb-sum u (clock 0) k m d.interval_secs h (later w.statement) long in
          run_all_none_due creds due (run_one s decrypt orders fails clock creds d w) longs (
            subst (λ t. Pending u t.scan_target due t.schedule) (sym (run_one-tables creds d w))
              (Pending-advance u w.tables.scan_target k d due w.tables.schedule lt pending))

  with_credentials_lem :
      (fails : ℕ → Bool) (clock : ℕ → ℤ) (up : (k : ℕ) → fails k ≡ false) (m : ℤ)
      (later : (k : ℕ) → clock 0 ≤ℤ clock k) (h : ltb_ℤ (clock 0) (clock 0 +ℤ m) ≡ true)
      (due : List DueSchedule) (w : World)
      → w.scans ≡ []
      → DueAtLeast m due
      → Pending (clock 0) w.tables.scan_target due w.tables.schedule
      → let w' = with_credentials s decrypt orders fails clock due w in
        (w'.scans ≡ calls (decrypt (list_credentials orders w.tables)) due)
        × (due_schedules (clock 0) w'.tables ≡ [])
  unfolding calls due_schedules
  with_credentials_lem fails clock up m later h [] w none_yet long pending =
      (none_yet, due_of_none (clock 0) w.tables.scan_target w.tables.schedule pending)
  with_credentials_lem fails clock up m later h (d ∷ due) w none_yet long pending =
      let creds = decrypt (list_credentials orders w.tables) in
      rw (up w.statement) (
        run_all-calls fails clock up creds (d ∷ due) _
            ∙ ap (λ l. l ++ calls creds (d ∷ due)) none_yet,
        run_all_none_due fails clock up (clock 0) m later h creds (d ∷ due) _ long pending,
      )

  -- In a tick whose statements all succeed, with intervals of at least m > 0 and a clock that does
  -- not fall below its first reading, exactly the due schedules whose targets have specs are
  -- scanned, each once and in their order, with the decrypted credentials; and nothing is left due
  -- at the time at which the tick began.
  pub run_due-calls :
      (fails : ℕ → Bool) (clock : ℕ → ℤ) (m : ℤ) (t : Tables)
      → ((k : ℕ) → fails k ≡ false)
      → ((k : ℕ) → clock 0 ≤ℤ clock k)
      → ltb_ℤ (clock 0) (clock 0 +ℤ m) ≡ true
      → AtLeast m t.schedule
      → let w = run_due s decrypt orders fails clock (at_tick t) in
        (w.scans ≡ calls (decrypt (list_credentials orders t)) (due_schedules (clock 0) t))
        × (due_schedules (clock 0) w.tables ≡ [])
  unfolding run_due due_schedules
  run_due-calls fails clock m t up later h long = rw (up 0) (
      with_credentials_lem fails clock up m later h (due_of (clock 0) t.scan_target t.schedule) _
        refl (due_of-DueAtLeast m (clock 0) t.scan_target t.schedule long)
        (due_of-Pending (clock 0) t.scan_target t.schedule))
