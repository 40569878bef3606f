-- ===== src/Web/Quiet.antt =====
-- An unknown host that none of the probing collectors recognises: internal/scan/engine.go over the
-- collectors of cmd/motzworks/collectors.go.
use motzworks.Prelude.{
  ◌≡◌, refl, ap, ◌∙◌, true, false, ◌++◌, List, [], ◌∷◌, Option, none, some, All, inl, inr,
  Option-cases, length, sym, subst,
}
use motzworks.Prelude.Int.{ℤ}
use motzworks.Text.{Text, trim_space, join}
use motzworks.Addr.{Addr, Netip}
use motzworks.Model.{Device, Software}
use motzworks.Collector.{
  Credential, Target, Collected, Collector, Registry, new_registry, unknown, no_credential,
  for_class,
}
use motzworks.Collector
use motzworks.Collector.Registered.{
  Kind, ssh, opnsense, fortigate, fritzbox, register_collectors, collector,
  for_class-register_collectors,
}
use motzworks.Fingerprint.{classify_by_ports}
use motzworks.Discovery.Probe.{Host}
use motzworks.Ssh.Collect as Ssh
use motzworks.Web.{Request, Reply, Tried}
use motzworks.Web.Opnsense as Opnsense
use motzworks.Web.Fortigate as Fortigate
use motzworks.Web.Fritzbox as Fritzbox
use motzworks.Store.Db.{null_str, Server, ok, ChangeEvent, Db}
use motzworks.Store.Upsert.{upsert_device}
use motzworks.Store.Shallow.{upsert_device-shallow}
use motzworks.Scan.Process.{
  State, Gathered, discovered, gather, record_event, persist, base_device, target, host_result,
  process_host, persist_related,
}

-- What the collectors meet on the network; `other` stands for those that no unknown host gets.
pub record Network : Type 0 where
  pub netip : Netip
  pub to_lower : Text → Text
  pub parse_nix : Text → List Software
  pub min_uid : ℤ
  pub connect : Credential → Ssh.Session netip to_lower parse_nix min_uid
  pub send : Request → Reply
  pub print_addr : Addr → Text
  pub firmware : Text → Tried Opnsense.FirmwareStatus
  pub status : Text → Tried Fortigate.SystemStatus
  pub description : Text → Option Fritzbox.Description
  pub other : Kind → Target → Collected

-- The Collect of each collector.
unfoldable pub collect_of : Network → Kind → Target → Collected
collect_of n ssh = Ssh.collect n.netip n.to_lower n.parse_nix n.min_uid n.connect
collect_of n opnsense = Opnsense.collect n.firmware n.to_lower n.send n.print_addr 443
collect_of n fortigate = Fortigate.collect n.status n.to_lower n.send n.print_addr 443
collect_of n fritzbox = Fritzbox.collect n.description n.send n.print_addr Fritzbox.tr064_port
collect_of n k = n.other k

abbrev pub engine_registry : Network → Registry
engine_registry n = register_collectors (collect_of n) new_registry

-- No credential serves a collector of unknown hosts, and the address serves no description by AVM.
pub record IsUnclaimed (n : Network) (addr : Addr) (creds : List Credential) : Type 0 where
  pub no_ssh : Ssh.pick_credential creds ≡ none
  pub no_opnsense : Opnsense.pick_credential creds ≡ none
  pub no_fortigate : Fortigate.pick_credential creds ≡ none
  pub no_avm :
      (raw : Text) (d : Fritzbox.Description)
      → Fritzbox.fetch n.description n.send n.print_addr Fritzbox.tr064_port addr ≡ some raw
      → n.description raw ≡ some d
      → Fritzbox.is_avm (trim_space d.manufacturer) ≡ false

gather_keyless :
    (base : Device) (t : Target) (cs : List Collector) (errors : List Text)
    → All (λ c. c.collect t ≡ Collector.err no_credential) cs
    → gather base t cs errors
      ≡ record { device = base; related = []; collector = []; errors = errors }
unfolding gather
gather_keyless base t [] errors h = refl
gather_keyless base t (c ∷ cs) errors (e, rest) =
    rw (e, gather) (gather_keyless base t cs errors rest)

module _ (n : Network) (t : Target) (u : IsUnclaimed n t.addr t.credentials) where
  parse_desc-none :
      (raw : Text)
      → Fritzbox.fetch n.description n.send n.print_addr Fritzbox.tr064_port t.addr ≡ some raw
      → Fritzbox.parse_desc n.description raw ≡ none
  unfolding Fritzbox.parse_desc
  parse_desc-none raw e = elim (Option-cases (n.description raw)) [
    | inl d ↦ rw d
    | inr (d, h) ↦ rw h (rw (u.no_avm raw d e h))
  ]

  fritzbox-keyless :
      Fritzbox.collect n.description n.send n.print_addr Fritzbox.tr064_port t
      ≡ Collector.err no_credential
  unfolding Fritzbox.collect
  fritzbox-keyless =
      elim (Option-cases
        (Fritzbox.fetch n.description n.send n.print_addr Fritzbox.tr064_port t.addr)) [
          | inl e ↦ rw e
          | inr (raw, e) ↦ rw e (rw (parse_desc-none raw e))
        ]

  all_keyless :
      All (λ c. c.collect t ≡ Collector.err no_credential) (for_class (engine_registry n) unknown)
  unfolding collector collect_of Ssh.collect Opnsense.collect Fortigate.collect
  all_keyless =
      rw (for_class-register_collectors (collect_of n) unknown) (
        rw u.no_ssh refl,
        (rw u.no_opnsense refl, (rw u.no_fortigate refl, (fritzbox-keyless, tt))),
      )

module _ (sv : Server) (run_id : Text) where
  persist_stored :
      (d : Device) (h : Host) (s : State) (id : Text) (changes : List ChangeEvent) (db : Db)
      → classify_by_ports h.open_ports ≡ unknown
      → let g : Gathered = record { device = d; related = []; collector = []; errors = [] } in
        persist sv true run_id g (host_result sv true run_id h g) (ok (id, changes), db) s ≡ (
          record {
            addr = sv.print_addr h.addr;
            class = unknown;
            device_id = id;
            collector = [];
            changes = length changes;
            error = none;
            collect_err = [];
          },
          record {
            db = db;
            scan_event =
                s.scan_event
                ++ record {
                  run_id = run_id;
                  addr = sv.print_addr h.addr;
                  class = unknown;
                  collector = [];
                  status = discovered;
                  changes = length changes;
                  error = none;
                }
                  ∷ [];
          },
        )
  unfolding record_event persist_related join null_str
  persist_stored d h s id changes db e = rw e

  -- If no credential serves the collectors of unknown hosts, nothing at the address of a host of
  -- class unknown serves a description by AVM, its device can be stored and the event be written,
  -- then its scan is no failure: the result names no collector and no error, the event says
  -- discovered, and the interfaces, systems, hardware, software and users of every device stay.
  pub process_host-IsUnclaimed :
      (n : Network) (h : Host) (creds : List Credential) (s : State) (id : Text)
      (changes : List ChangeEvent) (db : Db)
      → classify_by_ports h.open_ports ≡ unknown
      → IsUnclaimed n h.addr creds
      → upsert_device sv (base_device sv true run_id h) run_id false s.db ≡ (ok (id, changes), db)
      → (process_host sv true run_id (engine_registry n) h creds s ≡ (
        record {
          addr = sv.print_addr h.addr;
          class = unknown;
          device_id = id;
          collector = [];
          changes = length changes;
          error = none;
          collect_err = [];
        },
        record {
          db = db;
          scan_event =
              s.scan_event
              ++ record {
                run_id = run_id;
                addr = sv.print_addr h.addr;
                class = unknown;
                collector = [];
                status = discovered;
                changes = length changes;
                error = none;
              }
                ∷ [];
        },
      ))
        × (db.children ≡ s.db.children)
  unfolding process_host
  process_host-IsUnclaimed n h creds s id changes db e u stored =
      let d = base_device sv true run_id h in
      let t = target sv true run_id h creds in
      let keyless : All (λ c. c.collect t ≡ Collector.err no_credential)
          (for_class (engine_registry n) (classify_by_ports h.open_ports)) =
        subst
          (λ c.
            All (λ c. c.collect t ≡ Collector.err no_credential) (for_class (engine_registry n) c))
          (sym e) (all_keyless n t u) in
      (
        rw
            (
              gather_keyless d t (for_class (engine_registry n) (classify_by_ports h.open_ports)) []
                  keyless,
              stored,
            )
            (persist_stored d h s id changes db e),
        sym (ap (λ r. r.1.children) stored) ∙ upsert_device-shallow sv d run_id s.db,
      )
