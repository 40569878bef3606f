-- ===== src/Scan/Engine/Hosts.antt =====
-- internal/scan/engine.go: which hosts the summary of a run lists.
use motzworks.Prelude.{
  ℕ, ◌+◌, ◌≡◌, refl, sym, ap, ◌∙◌, true, ◌||◌, List, [], ◌∷◌, map, Distinct, length, subst,
  contains, arith,
}
use motzworks.Text.{Text, text_Eq}
use motzworks.Addr.{Addr}
use motzworks.Discovery.Expand.{expand}
use motzworks.Discovery.Expand as Expand
use motzworks.Discovery.Probe.{Host, discover}
use motzworks.Scan.Merge.{
  add_host, add_hosts, merge_hosts, keys, merge_hosts-union, contains-keys-add_host,
}
use motzworks.Scan.Process.{HostResult, State, Summary, Gathered, persist, process_host}
use motzworks.Scan.Outcome.{summarize_counts}
use motzworks.Store.Db.{Db, Answer, ChangeEvent, ok, err}
use motzworks.Scan.Engine.{EngineState, Options, World, Ran, run, run_jobs, live_hosts, extra_hosts}
use motzworks.Scan.Engine as Engine
use motzworks.Scan.Engine.Recorded.{expanded_parts}

module _ (print_addr : Addr → Text) where
  contains-keys-add_hosts :
      (merged hs : List Host) (k : Text)
      → contains (keys print_addr (add_hosts print_addr merged hs)) k
        ≡ (contains (keys print_addr merged) k || contains (keys print_addr hs) k)
  unfolding add_hosts contains
  contains-keys-add_hosts merged [] k = ground arith
  contains-keys-add_hosts merged (h ∷ hs) k =
      contains-keys-add_hosts (add_host print_addr merged h) hs k
      ∙ rw (contains-keys-add_host print_addr merged h k) (ground arith)

  contains-keys-merge_hosts :
      (primary extra : List Host) (k : Text)
      → contains (keys print_addr (merge_hosts print_addr primary extra)) k
        ≡ (contains (keys print_addr primary) k || contains (keys print_addr extra) k)
  unfolding merge_hosts contains
  contains-keys-merge_hosts primary extra k =
      contains-keys-add_hosts (add_hosts print_addr [] primary) extra k
      ∙ rw (contains-keys-add_hosts [] primary k) refl

module _ (w : World) (opts : Options) where
  persist-addr :
      (g : Gathered) (hr : HostResult) (a : Answer (Text × List ChangeEvent) × Db) (s : State)
      → (persist w.server w.events_kept w.run_id g hr a s).0.addr ≡ hr.addr
  persist-addr g hr (ok (id, changes), db) s = refl
  persist-addr g hr (err e, db) s = refl

  run_jobs-keys :
      (i : ℕ) (hs : List Host) (s : State)
      → ((j : ℕ) → w.job_ran j ≡ true)
      → map (λ hr. hr.addr) (run_jobs w opts i hs s).0 ≡ keys w.server.print_addr hs
  unfolding run_jobs process_host
  run_jobs-keys i [] s r = refl
  run_jobs-keys i (h ∷ hs) s r =
      rw (run_jobs, r i, run_jobs-keys (i + 1) hs _ r, persist-addr _ _ _ s) refl

  -- If the pool ran every job, the summary of a run that ends without an error names no address
  -- twice, and names just those at which the discovery, over the addresses of the specs, or the
  -- probe found a host.
  pub run_hosts :
      (st : EngineState) (sum : Summary) (k : Text)
      → ((j : ℕ) → w.job_ran j ≡ true)
      → (run w opts st).0 ≡ Engine.ok sum
      → (addrs : List Addr) × (expand w.net w.fuel opts.specs ≡ Expand.ok addrs)
        × Distinct (map (λ hr. hr.addr) sum.hosts)
        × (contains (map (λ hr. hr.addr) sum.hosts) k ≡ (
            contains
              (keys w.server.print_addr
                (discover w.probe_ran w.context w.dial addrs opts.discovery))
              k
            || contains (keys w.server.print_addr (extra_hosts w opts opts.probe addrs)) k))
  unfolding run live_hosts
  run_hosts st sum k r e =
      let (addrs, x, a, rows) = expanded_parts w opts (expand w.net w.fuel opts.specs) st sum e in
      let live = live_hosts w opts addrs in
      let hrs = (run_jobs w opts 0 live st.state).0 in
      let (listed, c, p) = summarize_counts w.run_id (length live) hrs in
      let same : map (λ hr. hr.addr) sum.hosts ≡ keys w.server.print_addr live =
        ap (λ v. map (λ hr. hr.addr) v.hosts) (sym a)
        ∙ ap (map (λ hr. hr.addr)) listed
        ∙ run_jobs-keys 0 live st.state r in
      (
        addrs,
        x,
        subst (λ l. Distinct l) (sym same)
            (merge_hosts-union w.server.print_addr
              (discover w.probe_ran w.context w.dial addrs opts.discovery)
              (extra_hosts w opts opts.probe addrs)).0,
        ap (λ l. contains l k) same
            ∙ contains-keys-merge_hosts w.server.print_addr
                (discover w.probe_ran w.context w.dial addrs opts.discovery)
                (extra_hosts w opts opts.probe addrs) k,
      )
