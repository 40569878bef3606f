-- ===== src/Web/Tests.antt =====
-- Examples for the theorems on the HTTP collectors.
use motzworks.Prelude.{◌≡◌, refl, true, false, List, [], ◌∷◌, none, some, contains, arith}
use motzworks.Prelude.Int.{pos}
use motzworks.Text.{Text, lit, trim_space, join, text_eq}
use motzworks.Addr.{Addr, ip4, Netip, is_valid, family_eq}
use motzworks.Collector.{Target, Result, unknown, no_credential}
use motzworks.Collector
use motzworks.Discovery.Probe.{Host}
use motzworks.Fingerprint.{classify_by_ports, class_to_type}
use motzworks.Ssh.Collect as Ssh
use motzworks.Web.{limited, Request, Reply, response, err}
use motzworks.Web.Fritzbox.{Description, parse_mac, fetch, collect, is_avm, body_read}
use motzworks.Web.Fritzbox as Fritzbox
use motzworks.Web.Opnsense as Opnsense
use motzworks.Web.Fortigate as Fortigate
use motzworks.Web.Quiet.{Network, IsUnclaimed, engine_registry, process_host-IsUnclaimed}
use motzworks.Store.Found.{nobody}
use motzworks.Web.Moved.{Serves, fritzbox-moved}
use motzworks.Scan.Merge.{merge_device}
use motzworks.Scan.Process.{State, base_device, process_host, discovered}
use motzworks.Store.Db.{ChangeEvent, ok, transaction, ◌>>=◌, query, exec}
use motzworks.Store.Diff.{is_locally_administered, macs_of}
use motzworks.Store.Resolve.{resolve_device, attempt, applies, matches, query_id, has_mac}
use motzworks.Store.Upsert.{upsert_device, upsert_tx, write_device, insert_changes}
use motzworks.Store.Samples.{server, server-Answers, server-NewIds, sample_db, sample_device}

abbrev print : Addr → Text
print a = []

-- The description of a box with this manufacturer and version.
abbrev description : Text → Text → Description
description manufacturer display = record {
  display = display;
  friendly_name = [];
  manufacturer = manufacturer;
  model_name = lit "FRITZ!Box";
  model_description = [];
  serial_number = lit "08:b6:57:fa:a2:af";
}

-- Every address answers with its page.
abbrev answer : Request → Reply
answer r = response 200 (lit "7") none

abbrev decode : Text → Text → Fritzbox.Description
decode manufacturer raw = description manufacturer raw

abbrev box_target : Target
box_target = record {
  addr = record { family = ip4; value = 9 };
  hostname = [];
  class = unknown;
  credentials = [];
}

abbrev moved_target : Target
moved_target = record box_target { addr = record { family = ip4; value = 10 } }

abbrev mac : Text
mac = lit "08:b6:57:fa:a2:af"

mac_test : parse_mac (lit "08:b6:57:fa:a2:af") ≡ some mac
unfolding parse_mac lit trim_space Fritzbox.parse_mac_6 Fritzbox.octets join
mac_test = refl

box-Serves :
    (t : Target)
    → Serves
        (λ raw. some (decode (lit "AVM") raw))
        answer
        print
        49_000
        t
        (description (lit "AVM") (lit "7"))
unfolding lit trim_space is_avm body_read Fritzbox.read_all fetch limited
box-Serves t = record { raw = lit "7"; answers = refl; decodes = refl; by_avm = refl }

fritzbox-moved_example :
    (r r' : Result) × (collect (λ raw. some (decode (lit "AVM") raw)) answer print 49_000 box_target
      ≡ Collector.ok r)
    × (collect (λ raw. some (decode (lit "AVM") raw)) answer print 49_000 moved_target
        ≡ Collector.ok r')
    × (id : Text) × (changes changes' : List ChangeEvent) × (let first =
          upsert_device
            (server none)
            (merge_device sample_device r.device (lit "fritzbox"))
            []
            true
            sample_db in
        (first.0 ≡ ok (id, changes))
        × ((upsert_device
              (server none)
              (merge_device sample_device r'.device (lit "fritzbox"))
              []
              true
              first.1).0
            ≡ ok (id, changes')))
unfolding lit server is_locally_administered text_eq has_mac
fritzbox-moved_example =
    fritzbox-moved (server none) mac refl refl server-Answers server-NewIds
      (λ raw. some (decode (lit "AVM") raw)) answer print 49_000 box_target moved_target
      (description (lit "AVM") (lit "7")) (description (lit "AVM") (lit "7")) sample_device
      sample_device sample_db [] [] (box-Serves box_target) (box-Serves moved_target) mac_test
      mac_test (refl, tt) (nobody (λ i. refl))

abbrev netip : Netip
netip = record { parse_addr = λ s. none; parse_prefix = λ s. none; print_addr = print }

-- What answers is no FRITZ!Box.
abbrev network : Network
network = record {
  netip = netip;
  to_lower = λ s. s;
  parse_nix = λ s. [];
  min_uid = pos 1000;
  connect = λ cred. Ssh.refused [];
  send = answer;
  print_addr = print;
  firmware = λ raw. err [];
  status = λ raw. err [];
  description = λ raw. some (description (lit "ACME") raw);
  other = λ k t. Collector.err no_credential;
}

abbrev unknown_host : Host
unknown_host = record { addr = record { family = ip4; value = 9 }; open_ports = 80 ∷ [] }

unknown_test : classify_by_ports (80 ∷ []) ≡ unknown
unfolding classify_by_ports contains
unknown_test = refl

unclaimed : IsUnclaimed network unknown_host.addr []
unfolding Ssh.pick_credential Opnsense.pick_credential Fortigate.pick_credential lit is_avm
    trim_space
unclaimed = record {
  no_ssh = refl;
  no_opnsense = refl;
  no_fortigate = refl;
  no_avm = λ raw d e h. ground arith;
}

abbrev state : State
state = record { db = sample_db; scan_event = [] }

stored_test :
    let r =
      upsert_device
        (server none)
        (base_device (server none) true [] unknown_host)
        []
        false
        sample_db in
    r ≡ (ok (b'n' ∷ b'a' ∷ [], []), r.1)
unfolding server upsert_device transaction upsert_tx ◌>>=◌ query exec resolve_device attempt applies
    matches is_valid query_id macs_of write_device insert_changes class_to_type classify_by_ports
    family_eq contains
stored_test = refl

process_host-IsUnclaimed_example :
    let r =
      upsert_device
        (server none)
        (base_device (server none) true [] unknown_host)
        []
        false
        sample_db in
    (process_host (server none) true [] (engine_registry network) unknown_host [] state ≡ (
      record {
        addr = 9 ∷ [];
        class = unknown;
        device_id = b'n' ∷ b'a' ∷ [];
        collector = [];
        changes = 0;
        error = none;
        collect_err = [];
      },
      record {
        db = r.1;
        scan_event =
            record {
              run_id = [];
              addr = 9 ∷ [];
              class = unknown;
              collector = [];
              status = discovered;
              changes = 0;
              error = none;
            }
            ∷ [];
      },
    ))
    × (r.1.children ≡ sample_db.children)
unfolding server
process_host-IsUnclaimed_example =
    process_host-IsUnclaimed (server none) [] network unknown_host [] state (b'n' ∷ b'a' ∷ []) []
      (upsert_device (server none) (base_device (server none) true [] unknown_host) [] false
        sample_db).1
      unknown_test unclaimed stored_test
