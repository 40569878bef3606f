-- ===== src/Scan/Engine/Recorded.antt =====
-- internal/scan/engine.go: what a run that ends leaves in scan_run, and what its summary lists.
use motzworks.Prelude.{
  ℕ, suc, ◌+◌, ◌≤◌, ◌≡◌, refl, sym, ap, ◌∙◌, subst, inl, inr, Bool, true, false, ◌&&◌, not, List,
  [], ◌∷◌, ◌++◌, none, All, length, Bool-cases, arith, if◌then◌else◌,
}
use motzworks.Text.{Text, text_Eq, text_eq, text_eq_iff, lit, is_empty}
use motzworks.Addr.{Addr}
use motzworks.Discovery.Expand.{expand, Outcome, ExpandError}
use motzworks.Discovery.Expand as Expand
use motzworks.Discovery.Probe.{Host}
use motzworks.Scan.Process.{HostResult, State, Summary, summarize, count_host, count_hosts, is_none}
use motzworks.Scan.Outcome.{summarize_counts, count}
use motzworks.Store.Db.{null_str}
use motzworks.Scan.Engine.{
  ScanRun, create_scan_run, set_scan_discovered, finish_scan_run, Options, EngineState, World, Ran,
  store_error, expand_error, out_of_fuel, no_result, no_summary, run_jobs, live_hosts,
  discovered_rows, finished_run, run_addrs, expanded, run, create_run, set_discovered, finish_run,
}
use motzworks.Scan.Engine as Engine

-- No row has this id.
unfoldable pub IsUnused : Text → List ScanRun → Type 0
IsUnused id rows = All (λ r. text_eq r.id id ≡ false) rows

set_scan_discovered-snoc :
    (id : Text) (n : ℕ) (rows : List ScanRun) (r : ScanRun)
    → IsUnused id rows
    → r.id ≡ id
    → set_scan_discovered id n (rows ++ r ∷ []) ≡ rows ++ record r { discovered = n } ∷ []
unfolding set_scan_discovered IsUnused
set_scan_discovered-snoc id n [] r h e = simp ((text_eq_iff r.id id).1 e)
set_scan_discovered-snoc id n (x ∷ rows) r (h, hs) e =
    simp (h, set_scan_discovered-snoc id n rows r hs e)

finish_scan_run-snoc :
    (id : Text) (n : ℕ) (rows : List ScanRun) (r : ScanRun)
    → IsUnused id rows
    → r.id ≡ id
    → finish_scan_run id (lit "ok") n [] (rows ++ r ∷ [])
      ≡ rows ++ record r { status = lit "ok"; hosts_found = n; error = none; finished = true } ∷ []
unfolding finish_scan_run IsUnused null_str
finish_scan_run-snoc id n [] r h e = simp ((text_eq_iff r.id id).1 e)
finish_scan_run-snoc id n (x ∷ rows) r (h, hs) e = simp (h, finish_scan_run-snoc id n rows r hs e)

count_le_length : (p : HostResult → Bool) (hrs : List HostResult) → count p hrs ≤ length hrs
unfolding count
count_le_length p [] = omega arith
count_le_length p (hr ∷ hrs) = ground (arith, count_le_length p hrs)

count_hosts-discovered :
    (sum : Summary) (hrs : List HostResult) → (count_hosts sum hrs).discovered ≡ sum.discovered
unfolding count_hosts count_host
count_hosts-discovered sum [] = refl
count_hosts-discovered sum (hr ∷ hrs) = count_hosts-discovered (count_host sum hr) hrs

summarize-discovered :
    (run_id : Text) (n : ℕ) (hrs : List HostResult) → (summarize run_id n hrs).discovered ≡ n
unfolding summarize
summarize-discovered run_id n hrs = count_hosts-discovered _ hrs

module _ (w : World) (opts : Options) where
  run_jobs-length :
      (i : ℕ) (hs : List Host) (s : State) → length (run_jobs w opts i hs s).0 ≡ length hs
  unfolding run_jobs
  run_jobs-length i [] s = refl
  run_jobs-length i (h ∷ hs) s = elim (Bool-cases (w.job_ran i)) [
    | inl e ↦ rw (run_jobs, e) (ap suc (run_jobs-length (i + 1) hs _))
    | inr e ↦ rw (run_jobs, e) (ap suc (run_jobs-length (i + 1) hs s))
  ]

  -- The row of a run that ended.
  abbrev pub finished_row : Summary → ScanRun
  finished_row sum = record {
    id = w.run_id;
    targets = opts.specs;
    status = lit "ok";
    discovered = if w.fails set_discovered then 0 else sum.discovered;
    hosts_found = sum.persisted;
    error = none;
    finished = true;
  }

  pub record IsRecorded (st : EngineState) (sum : Summary) : Type 0 where
    pub rows : (run w opts st).1.scan_run ≡ st.scan_run ++ finished_row sum ∷ []
    pub one_each : length sum.hosts ≡ sum.discovered
    pub persisted_le : sum.persisted ≤ sum.discovered
    pub collected_le : sum.collected ≤ sum.discovered

  -- How a run that is ok went.
  abbrev summary_of : List Addr → EngineState → Summary
  summary_of addrs st =
      summarize w.run_id (length (live_hosts w opts addrs))
        (run_jobs w opts 0 (live_hosts w opts addrs) st.state).0

  abbrev rows_of : List Addr → EngineState → List ScanRun
  rows_of addrs st = finish_scan_run w.run_id (lit "ok") (summary_of addrs st).persisted [] (
      discovered_rows w opts (length (live_hosts w opts addrs))
        (create_scan_run w.run_id opts.specs st.scan_run))

  ok_or : Summary → Ran → Summary
  ok_or d (Engine.ok sum) = sum
  ok_or d r = d

  finished_parts :
      (sum sum' : Summary) (s : State) (rows : List ScanRun)
      → (finished_run w opts sum' s rows).0 ≡ Engine.ok sum
      → (sum' ≡ sum)
        × ((finished_run w opts sum' s rows).1.scan_run
            ≡ finish_scan_run w.run_id (lit "ok") sum'.persisted [] rows)
  unfolding ok_or
  finished_parts sum sum' s rows h = elim (Bool-cases (w.fails finish_run)) [
    | inl e ↦ absurd (not_ok (rw e at h))
    | inr e ↦ (ap (ok_or sum) (rw e at h), simp e)
  ]
    where
      not_ok : store_error sum' ≡ Engine.ok sum → ⊥
      not_ok p = ground arith

  pub expanded_parts :
      (o : Outcome (List Addr)) (st : EngineState) (sum : Summary)
      → (expanded w opts o st).0 ≡ Engine.ok sum
      → (addrs : List Addr) × (o ≡ Expand.ok addrs)
        × (summary_of addrs st ≡ sum)
        × ((expanded w opts o st).1.scan_run ≡ rows_of addrs st)
  unfolding run_addrs
  expanded_parts (Expand.err e) st sum h = absurd (ground arith)
  expanded_parts Expand.out_of_fuel st sum h = absurd (ground arith)
  expanded_parts (Expand.ok addrs) st sum h = elim (Bool-cases (w.fails create_run)) [
    | inl e ↦ absurd (not_ok (rw e at h))
    | inr e ↦
        let (a, b) = finished_parts sum (summary_of addrs st) _ _ (rw e at h) in
        (
          addrs,
          refl,
          a,
          subst
              (λ c.
                (if c
                  then (store_error no_summary, st)
                  else run_addrs w opts addrs st.state
                      (create_scan_run w.run_id opts.specs st.scan_run)).1.scan_run
                ≡ rows_of addrs st)
              (sym e) b,
        )
  ]
    where
      not_ok : store_error no_summary ≡ Engine.ok sum → ⊥
      not_ok p = ground arith

  discovered_rows_of :
      (n : ℕ) (rows : List ScanRun)
      → IsUnused w.run_id rows
      → discovered_rows w opts n (create_scan_run w.run_id opts.specs rows)
        ≡ rows
          ++ record {
            id = w.run_id;
            targets = opts.specs;
            status = lit "running";
            discovered = if w.fails set_discovered then 0 else n;
            hosts_found = 0;
            error = none;
            finished = false;
          }
            ∷ []
  unfolding create_scan_run
  discovered_rows_of n rows h = elim (Bool-cases (w.fails set_discovered)) [
    | inl e ↦ simp e
    | inr e ↦ simp (e, set_scan_discovered-snoc w.run_id n rows _ h refl)
  ]

  rows_of-finished :
      (addrs : List Addr) (st : EngineState)
      → IsUnused w.run_id st.scan_run
      → rows_of addrs st ≡ st.scan_run ++ finished_row (summary_of addrs st) ∷ []
  rows_of-finished addrs st h =
      let n = length (live_hosts w opts addrs) in
      ap (finish_scan_run w.run_id (lit "ok") (summary_of addrs st).persisted [])
        (discovered_rows_of n st.scan_run h)
      ∙ finish_scan_run-snoc w.run_id (summary_of addrs st).persisted st.scan_run _ h refl
      ∙ rw
          (summarize-discovered w.run_id n (run_jobs w opts 0 (live_hosts w opts addrs) st.state).0)
          refl

  summary_of-counts :
      (addrs : List Addr) (st : EngineState)
      → (length (summary_of addrs st).hosts ≡ (summary_of addrs st).discovered)
        × ((summary_of addrs st).persisted ≤ (summary_of addrs st).discovered)
        × ((summary_of addrs st).collected ≤ (summary_of addrs st).discovered)
  summary_of-counts addrs st =
      let live = live_hosts w opts addrs in
      let hrs = (run_jobs w opts 0 live st.state).0 in
      let (h, c, p) = summarize_counts w.run_id (length live) hrs in
      let d = summarize-discovered w.run_id (length live) hrs in
      let l = run_jobs-length 0 live st.state in
      (
        ap length h ∙ l ∙ sym d,
        omega (arith, p, d, l, count_le_length (λ hr. not (is_empty hr.device_id)) hrs),
        omega (
          arith,
          c,
          d,
          l,
          count_le_length (λ hr. not (is_empty hr.collector) && is_none hr.error) hrs,
        ),
      )

  -- If the id that the database makes up for the run is new, a run that ends without an error
  -- leaves one more row in scan_run, with its specs, the status ok, and the counts of its summary
  -- (a count of discovered hosts that could not be written stays 0); the summary has one result
  -- for each host that was discovered, and counts no more persisted or collected than those.
  pub run-IsRecorded :
      (st : EngineState) (sum : Summary)
      → IsUnused w.run_id st.scan_run
      → (run w opts st).0 ≡ Engine.ok sum
      → IsRecorded st sum
  unfolding run
  run-IsRecorded st sum h e =
      let (addrs, x, a, r) = expanded_parts (expand w.net w.fuel opts.specs) st sum e in
      let (one, p, c) = summary_of-counts addrs st in
      subst (IsRecorded st) a (record {
        rows = r ∙ rows_of-finished addrs st h;
        one_each = one;
        persisted_le = p;
        collected_le = c;
      })
