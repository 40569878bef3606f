-- ===== src/Scheduler/Rests.antt =====
-- A schedule that was scanned is not due again before its interval is over.
use motzworks.Prelude.{
  ℕ, ◌≡◌, Bool, true, false, ◌&&◌, List, [], ◌∷◌, ◌++◌, arith, All, Bool-cases, inl, inr,
}
use motzworks.Prelude.Int.{ℤ, ltb_ℤ, ◌+ℤ◌, ◌≤ℤ◌}
use motzworks.Text.{Text, text_eq}
use motzworks.Collector.{Credential}
use motzworks.Store.Targets.{
  Orders, StoredCredential, ScanTarget, Schedule, DueSchedule, Tables, is_due, joined, due_of,
  due_schedules, advance, advance_schedule, list_credentials,
}
use motzworks.Scheduler.{
  Scheduler, ScanOptions, World, scanned, run_one, run_all, with_credentials, run_due,
}

-- The schedules of this id are not due at u.
unfoldable pub Rests : ℤ → Text → List Schedule → Type 0
Rests u id rows = All (λ r. text_eq r.id id ≡ true → is_due u r ≡ false) rows

module _ (u now : ℤ) (id : Text) (i : ℤ) (h : ltb_ℤ u (now +ℤ i) ≡ true) where
  pub advance-Rests : (rows : List Schedule) → Rests u id (advance now id i rows)
  unfolding Rests advance is_due
  advance-Rests [] = tt
  advance-Rests (r ∷ rows) = elim (Bool-cases (text_eq r.id id)) [
    | inl hit ↦ rw (hit, h) (λ e. ground arith, advance-Rests rows)
    | inr miss ↦ rw miss (λ e. ground arith, advance-Rests rows)
  ]

  pub Rests-advance :
      (k : Text) (rows : List Schedule) → Rests u k rows → Rests u k (advance now id i rows)
  unfolding Rests advance is_due
  Rests-advance k [] rest = tt
  Rests-advance k (r ∷ rows) (one, rest) = elim (Bool-cases (text_eq r.id id)) [
    | inl hit ↦ rw (hit, h) (λ e. ground arith, Rests-advance k rows rest)
    | inr miss ↦ rw miss (one, Rests-advance k rows rest)
  ]

-- A sum with a larger clock and a larger interval is larger.
pub ltb-sum :
    (u t t' m i : ℤ) → ltb_ℤ u (t +ℤ m) ≡ true → t ≤ℤ t' → m ≤ℤ i → ltb_ℤ u (t' +ℤ i) ≡ true
unfolding ◌+ℤ◌
ltb-sum u t t' m i h a b = ground arith

unfoldable pub AtLeast : ℤ → List Schedule → Type 0
AtLeast m rows = All (λ r. m ≤ℤ r.interval_secs) rows

unfoldable pub DueAtLeast : ℤ → List DueSchedule → Type 0
DueAtLeast m due = All (λ d. m ≤ℤ d.interval_secs) due

module _ (m : ℤ) where
  DueAtLeast-append :
      (xs ys : List DueSchedule) → DueAtLeast m xs → DueAtLeast m ys → DueAtLeast m (xs ++ ys)
  unfolding DueAtLeast
  DueAtLeast-append [] ys h k = k
  DueAtLeast-append (x ∷ xs) ys (h, hs) k = (h, DueAtLeast-append xs ys hs k)

  joined-DueAtLeast :
      (sc : Schedule) (ts : List ScanTarget) → m ≤ℤ sc.interval_secs → DueAtLeast m (joined sc ts)
  unfolding DueAtLeast joined
  joined-DueAtLeast sc [] h = tt
  joined-DueAtLeast sc (t ∷ ts) h =
      elim (Bool-cases (text_eq t.id sc.scan_target_id && t.enabled)) [
        | inl hit ↦ rw hit (h, joined-DueAtLeast sc ts h)
        | inr miss ↦ rw miss (joined-DueAtLeast sc ts h)
      ]

  pub due_of-DueAtLeast :
      (now : ℤ) (ts : List ScanTarget) (rows : List Schedule)
      → AtLeast m rows
      → DueAtLeast m (due_of now ts rows)
  unfolding AtLeast DueAtLeast due_of
  due_of-DueAtLeast now ts [] h = tt
  due_of-DueAtLeast now ts (r ∷ rows) (h, hs) = elim (Bool-cases (is_due now r)) [
    | inl due ↦ rw due (
        DueAtLeast-append (joined r ts) (due_of now ts rows) (joined-DueAtLeast r ts h)
          (due_of-DueAtLeast now ts rows hs))
    | inr rests ↦ rw rests (due_of-DueAtLeast now ts rows hs)
  ]

-- Every scan so far is of a schedule that rests.
Settled : ℤ → List (Text × ScanOptions) → List Schedule → Type 0
Settled u calls rows = All (λ c. Rests u c.0 rows) calls

module _ (u : ℤ) where
  Settled-advance :
      (now : ℤ) (id : Text) (i : ℤ) (calls : List (Text × ScanOptions)) (rows : List Schedule)
      → ltb_ℤ u (now +ℤ i) ≡ true
      → Settled u calls rows
      → Settled u calls (advance now id i rows)
  unfolding Settled
  Settled-advance now id i [] rows h s = tt
  Settled-advance now id i (c ∷ calls) rows h (s, ss) =
      (Rests-advance u now id i h c.0 rows s, Settled-advance now id i calls rows h ss)

  Settled-snoc :
      (calls : List (Text × ScanOptions)) (c : Text × ScanOptions) (rows : List Schedule)
      → Settled u calls rows
      → Rests u c.0 rows
      → Settled u (calls ++ c ∷ []) rows
  unfolding Settled
  Settled-snoc [] c rows s r = (r, tt)
  Settled-snoc (x ∷ calls) c rows (s, ss) r = (s, Settled-snoc calls c rows ss r)

  Settled-scanned :
      (cidrs : List Text) (c : Text × ScanOptions) (calls : List (Text × ScanOptions))
      (rows : List Schedule)
      → Settled u calls rows
      → Rests u c.0 rows
      → Settled u (scanned cidrs c calls) rows
  Settled-scanned [] c calls rows s r = s
  Settled-scanned (x ∷ cidrs) c calls rows s r = Settled-snoc calls c rows s r

-- A tick that begins with these tables.
abbrev pub at_tick : Tables → World
at_tick t = record { tables = t; scans = []; statement = 0 }

module _ (s : Scheduler) (decrypt : List StoredCredential → List Credential) (orders : Orders)
    (fails : ℕ → Bool) (clock : ℕ → ℤ) where
  module _ (u m : ℤ) (later : (k : ℕ) → clock 0 ≤ℤ clock k)
      (h : ltb_ℤ u (clock 0 +ℤ m) ≡ true) where
    run_one-Settled :
        (creds : List Credential) (d : DueSchedule) (w : World)
        → m ≤ℤ d.interval_secs
        → Settled u w.scans w.tables.schedule
        → let w' = run_one s decrypt orders fails clock creds d w in
          Settled u w'.scans w'.tables.schedule
    unfolding run_one advance_schedule
    run_one-Settled creds d w long settled =
        let k = clock w.statement in
        let lt = ltb-sum u (clock 0) k m d.interval_secs h (later w.statement) long in
        elim (Bool-cases (fails w.statement)) [
          | inl failed ↦ rw failed settled
          | inr fine ↦ rw fine (
              Settled-scanned u d.cidrs _ w.scans _
                (Settled-advance u k d.schedule_id d.interval_secs w.scans w.tables.schedule lt
                  settled)
                (advance-Rests u k d.schedule_id d.interval_secs lt w.tables.schedule))
        ]

    run_all-Settled :
        (creds : List Credential) (due : List DueSchedule) (w : World)
        → DueAtLeast m due
        → Settled u w.scans w.tables.schedule
        → let w' = run_all s decrypt orders fails clock creds due w in
          Settled u w'.scans w'.tables.schedule
    unfolding run_all DueAtLeast
    run_all-Settled creds [] w long settled = settled
    run_all-Settled creds (d ∷ due) w (long, longs) settled =
        run_all-Settled creds due (run_one s decrypt orders fails clock creds d w) longs
          (run_one-Settled creds d w long settled)

    with_credentials-Settled :
        (due : List DueSchedule) (w : World)
        → DueAtLeast m due
        → Settled u w.scans w.tables.schedule
        → let w' = with_credentials s decrypt orders fails clock due w in
          Settled u w'.scans w'.tables.schedule
    with_credentials-Settled [] w long settled = settled
    with_credentials-Settled (d ∷ due) w long settled = elim (Bool-cases (fails w.statement)) [
      | inl failed ↦ rw failed settled
      | inr fine ↦
          rw fine
            (run_all-Settled (decrypt (list_credentials orders w.tables)) (d ∷ due) _ long settled)
    ]

    -- If every interval is at least m and the database's clock does not fall below its first
    -- reading in a tick, then whichever statements of the tick fail, every schedule that the tick
    -- has scanned is not due at any time before m has passed since that reading: the next tick in
    -- that time does not scan it again.
    pub run_due-Rests :
        (t : Tables)
        → AtLeast m t.schedule
        → let w = run_due s decrypt orders fails clock (at_tick t) in
          All (λ c. Rests u c.0 w.tables.schedule) w.scans
    unfolding run_due due_schedules Settled
    run_due-Rests t long = elim (Bool-cases (fails 0)) [
      | inl failed ↦ rw failed tt
      | inr fine ↦ rw fine (
          with_credentials-Settled (due_schedules (clock 0) t) _
            (due_of-DueAtLeast m (clock 0) t.scan_target t.schedule long) tt)
    ]
