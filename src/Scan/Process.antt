-- ===== src/Scan/Process.antt =====
-- internal/scan/engine.go: `processHost`, `recordEvent` and the summary of `Run`; scan events are
-- those of internal/store/scanrun.go. Log lines are left out.
use motzworks.Prelude.{
  ℕ, suc, Bool, true, false, ◌&&◌, not, List, [], ◌∷◌, ◌++◌, Option, none, some, if◌then◌else◌,
  length,
}
use motzworks.Text.{Text, lit, is_empty, join}
use motzworks.Model.{Device, no_device}
use motzworks.Collector.{
  DeviceClass, Credential, Target, Related, Result, Collected, CollectError, no_credential, failure,
  Collector, Registry, for_class,
}
use motzworks.Collector
use motzworks.Fingerprint.{classify_by_ports, class_to_type}
use motzworks.Discovery.Probe.{Host}
use motzworks.Scan.Merge.{merge_device}
use motzworks.Store.Db.{Db, Server, Answer, ok, err, ChangeEvent, null_str}
use motzworks.Store.Upsert.{upsert_device, create_relationship}

pub record HostResult : Type 0 where
  pub addr : Text
  pub class : DeviceClass
  pub device_id : Text
  pub collector : Text
  pub changes : ℕ
  pub error : Option Text
  pub collect_err : Text

pub data Status : Type 0 where
  discovered collected failed : Status

-- A row of scan_event.
pub record ScanEvent : Type 0 where
  pub run_id : Text
  pub addr : Text
  pub class : DeviceClass
  pub collector : Text
  pub status : Status
  pub changes : ℕ
  pub error : Option Text

pub record State : Type 0 where
  pub db : Db
  pub scan_event : List ScanEvent

-- What the loop over the collectors leaves.
pub record Gathered : Type 0 where
  pub device : Device
  pub related : List Related
  pub collector : Text
  pub errors : List Text

abbrev pub after_error : Text → CollectError → List Text → List Text
after_error name no_credential errors = errors
after_error name (failure msg) errors = errors ++ (name ++ (b':' ∷ b' ' ∷ []) ++ msg) ∷ []

-- for _, c := range e.reg.For(class)
unfoldable pub gather : Device → Target → List Collector → List Text → Gathered
gather base t [] errors = record { device = base; related = []; collector = []; errors = errors }
gather base t (c ∷ cs) errors = elim (c.collect t) [
  | Collector.ok res ↦ record {
    device = merge_device base res.device c.name;
    related = res.related;
    collector = c.name;
    errors = [];
  }
  | Collector.err e ↦ gather base t cs (after_error c.name e errors)
]

abbrev pub event_status : HostResult → Status × Text
event_status hr = elim hr.error [
  | some e ↦ (failed, e)
  | none ↦
      if not (is_empty hr.collector)
      then (collected, [])
      else if not (is_empty hr.collect_err)
      then (failed, hr.collect_err)
      else (discovered, [])
]

module _ (sv : Server) (events_kept : Bool) (run_id : Text) where
  -- recordEvent; InsertScanEvent may fail, which is only logged.
  unfoldable pub record_event : HostResult → State → State
  record_event hr s =
      let (status, msg) = event_status hr in
      let event : ScanEvent = record {
        run_id = run_id;
        addr = hr.addr;
        class = hr.class;
        collector = hr.collector;
        status = status;
        changes = hr.changes;
        error = null_str msg;
      } in
      if events_kept then record s { scan_event = s.scan_event ++ event ∷ [] } else s

  abbrev pub link : Text → Text → Answer (Text × List ChangeEvent) × Db → Db
  link parent kind (ok (child, changes), db) = (create_relationship sv parent child kind db).1
  link parent kind (err e, db) = db

  -- for _, rel := range related
  unfoldable pub persist_related : Text → List Related → Db → Db
  persist_related parent [] db = db
  persist_related parent (rel ∷ rest) db =
      persist_related parent rest
        (link parent rel.kind (upsert_device sv rel.device run_id true db))

  abbrev pub base_device : Host → Device
  base_device h = record no_device {
    device_type = class_to_type (classify_by_ports h.open_ports);
    primary_ip = h.addr;
    source = lit "discovery";
  }

  abbrev pub target : Host → List Credential → Target
  target h creds = record {
    addr = h.addr;
    hostname = sv.print_addr h.addr;
    class = classify_by_ports h.open_ports;
    credentials = creds;
  }

  abbrev pub host_result : Host → Gathered → HostResult
  host_result h g = record {
    addr = sv.print_addr h.addr;
    class = classify_by_ports h.open_ports;
    device_id = [];
    collector = g.collector;
    changes = 0;
    error = none;
    collect_err = join (b';' ∷ b' ' ∷ []) g.errors;
  }

  abbrev pub persist :
      Gathered → HostResult → Answer (Text × List ChangeEvent) × Db → State → HostResult × State
  persist g hr (err e, db) s =
      let hr' = record hr { error = some e } in (hr', record_event hr' (record s { db = db }))
  persist g hr (ok (id, changes), db) s =
      let hr' = record hr { device_id = id; changes = length changes } in
      let s' = record_event hr' (record s { db = db }) in
      (hr', record s' { db = persist_related id g.related s'.db })

  -- processHost
  unfoldable pub process_host : Registry → Host → List Credential → State → HostResult × State
  process_host reg h creds s =
      let class = classify_by_ports h.open_ports in
      let g = gather (base_device h) (target h creds) (for_class reg class) [] in
      persist g (host_result h g)
        (upsert_device sv g.device run_id (not (is_empty g.collector)) s.db) s

pub record Summary : Type 0 where
  pub scan_run_id : Text
  pub discovered : ℕ
  pub collected : ℕ
  pub persisted : ℕ
  pub hosts : List HostResult

abbrev pub is_none {ℓ} : {A : Type ℓ} → Option A → Bool
is_none none = true
is_none (some a) = false

-- One round of the loop over the results of the pool.
unfoldable pub count_host : Summary → HostResult → Summary
count_host sum hr = record sum {
  hosts = sum.hosts ++ hr ∷ [];
  collected =
      if not (is_empty hr.collector) && is_none hr.error then suc sum.collected else sum.collected;
  persisted = if not (is_empty hr.device_id) then suc sum.persisted else sum.persisted;
}

unfoldable pub count_hosts : Summary → List HostResult → Summary
count_hosts sum [] = sum
count_hosts sum (hr ∷ hrs) = count_hosts (count_host sum hr) hrs

unfoldable pub summarize : Text → ℕ → List HostResult → Summary
summarize run_id live hrs =
    count_hosts
      (record { scan_run_id = run_id; discovered = live; collected = 0; persisted = 0; hosts = [] })
      hrs
