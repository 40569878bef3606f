-- ===== src/Scan/Outcome.antt =====
-- What processHost makes of the collectors' answers.
use motzworks.Prelude.{
  ℕ, ◌+◌, ◌≡◌, ◌∙◌, ap, sym, refl, Bool, false, ◌&&◌, not, List, [], ◌∷◌, ◌++◌, append_assoc,
  append-nil, arith, if◌then◌else◌, All,
}
use motzworks.Text.{Text, is_empty, join}
use motzworks.Model.{Device}
use motzworks.Collector.{
  Credential, Target, Related, Result, CollectError, no_credential, failure, Collector, Registry,
  for_class,
}
use motzworks.Collector
use motzworks.Fingerprint.{classify_by_ports}
use motzworks.Discovery.Probe.{Host}
use motzworks.Scan.Merge.{merge_device}
use motzworks.Store.Db.{Db, Server, Answer, ok, err, ChangeEvent}
use motzworks.Store.Upsert.{upsert_device}
use motzworks.Store.Shallow.{upsert_device-shallow}
use motzworks.Scan.Process.{
  HostResult, State, Gathered, after_error, gather, record_event, persist, persist_related,
  base_device, target, host_result, process_host, Summary, count_host, count_hosts, summarize,
  is_none,
}

-- The collector gives an error.
abbrev Fails : Target → Collector → Type 0
Fails t c = (e : CollectError) × (c.collect t ≡ Collector.err e)

pub record AllFail (t : Target) (cs : List Collector) : Type 0 where
  pub errors_of : All (Fails t) cs

-- The messages of the failures; a missing credential is none.
pub messages : Target → List Collector → List Text
messages t [] = []
messages t (c ∷ cs) = elim (c.collect t) [
  | Collector.ok res ↦ messages t cs
  | Collector.err e ↦ after_error c.name e [] ++ messages t cs
]

after_error-append :
    (name : Text) (e : CollectError) (errors : List Text)
    → after_error name e errors ≡ errors ++ after_error name e []
after_error-append name no_credential errors = sym (append-nil errors)
after_error-append name (failure m) errors = refl

gather_fail :
    (base : Device) (t : Target) (cs : List Collector) (errors : List Text)
    → All (Fails t) cs
    → gather base t cs errors
      ≡ record { device = base; related = []; collector = []; errors = errors ++ messages t cs }
unfolding gather messages
gather_fail base t [] errors h =
    ap (λ l. record { device = base; related = []; collector = []; errors = l })
      (sym (append-nil errors))
gather_fail base t (c ∷ cs) errors ((e, fails), rest) =
    rw (fails, gather)
      (gather_fail base t cs (after_error c.name e errors) rest
        ∙ ap (λ l. record { device = base; related = []; collector = []; errors = l })
            (rw (after_error-append c.name e errors, append_assoc)))

gather_success :
    (base : Device) (t : Target) (before : List Collector) (errors : List Text) (c : Collector)
    (after : List Collector) (r : Result)
    → All (Fails t) before
    → c.collect t ≡ Collector.ok r
    → gather base t (before ++ c ∷ after) errors ≡ record {
      device = merge_device base r.device c.name;
      related = r.related;
      collector = c.name;
      errors = [];
    }
unfolding gather
gather_success base t [] errors c after r h e = rw (e, gather)
gather_success base t (b ∷ before) errors c after r ((x, fails), rest) e =
    rw (fails, gather) (gather_success base t before (after_error b.name x errors) c after r rest e)

-- The first collector that succeeds, after collectors that all fail, ends the loop, whatever
-- stands after it: the device is its result laid over the discovered one, and the messages of the
-- failures before it are dropped.
pub gather_first :
    (base : Device) (t : Target) (before : List Collector) (c : Collector) (after : List Collector)
    (r : Result)
    → AllFail t before
    → c.collect t ≡ Collector.ok r
    → gather base t (before ++ c ∷ after) [] ≡ record {
      device = merge_device base r.device c.name;
      related = r.related;
      collector = c.name;
      errors = [];
    }
gather_first base t before c after r h e = gather_success base t before [] c after r h.errors_of e

module _ (sv : Server) (events_kept : Bool) (run_id : Text) where
  db-record_event :
      (hr : HostResult) (s : State) → (record_event sv events_kept run_id hr s).db ≡ s.db
  unfolding record_event
  db-record_event hr s = ground arith

  persist_failed :
      (d : Device) (errors : List Text) (hr : HostResult)
      (r : Answer (Text × List ChangeEvent) × Db) (s : State)
      → let g : Gathered = record { device = d; related = []; collector = []; errors = errors } in
        ((persist sv events_kept run_id g hr r s).1.db ≡ r.1)
        × ((persist sv events_kept run_id g hr r s).0.collect_err ≡ hr.collect_err)
        × ((persist sv events_kept run_id g hr r s).0.collector ≡ hr.collector)
  unfolding persist_related
  persist_failed d errors hr (ok (id, changes), db) s = (db-record_event _ _, refl, refl)
  persist_failed d errors hr (err e, db) s = (db-record_event _ _, refl, refl)

  -- If no collector succeeds on a host, its scan leaves the interfaces, systems, hardware,
  -- software and users of every device as they were, and its result names no collector and joins
  -- the failures' messages.
  pub process_host-AllFail :
      (reg : Registry) (h : Host) (creds : List Credential) (s : State)
      → AllFail
          (target sv events_kept run_id h creds)
          (for_class reg (classify_by_ports h.open_ports))
      → let r = process_host sv events_kept run_id reg h creds s in
        (r.1.db.children ≡ s.db.children)
        × (r.0.collector ≡ [])
        × (r.0.collect_err
            ≡ join (b';' ∷ b' ' ∷ []) (
                messages
                  (target sv events_kept run_id h creds)
                  (for_class reg (classify_by_ports h.open_ports))))
  unfolding process_host
  process_host-AllFail reg h creds s f =
      let d = base_device sv events_kept run_id h in
      let t = target sv events_kept run_id h creds in
      let cs = for_class reg (classify_by_ports h.open_ports) in
      let msgs = messages t cs in
      let g : Gathered = record { device = d; related = []; collector = []; errors = msgs } in
      let r = upsert_device sv d run_id false s.db in
      let (e1, e2, e3) = persist_failed d msgs (host_result sv events_kept run_id h g) r s in
      rw (gather_fail d t cs [] f.errors_of)
        (ap (λ (t : Db). t.children) e1 ∙ upsert_device-shallow sv d run_id s.db, e3, e2)

-- How many results pass a test.
unfoldable pub count : (HostResult → Bool) → List HostResult → ℕ
count p [] = 0
count p (hr ∷ hrs) = (if p hr then 1 else 0) + count p hrs

count_hosts_lem :
    (sum : Summary) (hrs : List HostResult)
    → ((count_hosts sum hrs).hosts ≡ sum.hosts ++ hrs)
      × ((count_hosts sum hrs).collected
          ≡ sum.collected + count (λ hr. not (is_empty hr.collector) && is_none hr.error) hrs)
      × ((count_hosts sum hrs).persisted
          ≡ sum.persisted + count (λ hr. not (is_empty hr.device_id)) hrs)
unfolding count_hosts count_host count
count_hosts_lem sum [] = (sym (append-nil sum.hosts), omega arith, omega arith)
count_hosts_lem sum (hr ∷ hrs) =
    let (h, c, p) = count_hosts_lem (count_host sum hr) hrs in
    (h ∙ append_assoc sum.hosts (hr ∷ []) hrs, c ∙ ground arith, p ∙ ground arith)

-- The summary lists every result in order; Collected counts those with a collector and no error,
-- Persisted those with a device id.
pub summarize_counts :
    (run_id : Text) (live : ℕ) (hrs : List HostResult)
    → ((summarize run_id live hrs).hosts ≡ hrs)
      × ((summarize run_id live hrs).collected
          ≡ count (λ hr. not (is_empty hr.collector) && is_none hr.error) hrs)
      × ((summarize run_id live hrs).persisted ≡ count (λ hr. not (is_empty hr.device_id)) hrs)
unfolding summarize count_hosts
summarize_counts run_id live hrs =
    let (h, c, p) = count_hosts_lem (summarize run_id live []) hrs in
    (h, c ∙ omega arith, p ∙ omega arith)
