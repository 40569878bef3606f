-- ===== src/Web/Moved.antt =====
-- A FRITZ!Box that has got another address: internal/collector/fritzbox/fritzbox.go, mergeDevice of
-- internal/scan/engine.go and UpsertDevice of internal/store/devices.go.
use motzworks.Prelude.{
  ℕ, ◌≡◌, refl, true, false, List, [], ◌∷◌, Option, none, some, arith, inl, inr, Bool-cases, ◌||◌,
  nat_Eq, ◌==◌,
}
use motzworks.Text.{Text, is_empty, lit, trim_space, join}
use motzworks.Addr.{Addr}
use motzworks.Model.{Device}
use motzworks.Collector.{Credential, Target, Result, Collected, no_credential}
use motzworks.Collector
use motzworks.Web.{Request, Reply}
use motzworks.Web.Fritzbox.{
  Description, parse_mac, parse_desc, fetch, collect, box_device, is_avm, printed_mac, six,
  parse_mac_6, octets, dotted,
}
use motzworks.Scan.Merge.{merge_device}
use motzworks.Store.Db.{ChangeEvent, Db, Server, ok}
use motzworks.Store.Diff.{macs_of, macs_from, is_locally_administered}
use motzworks.Store.Upsert.{upsert_device}
use motzworks.Store.Runs.{Answers}
use motzworks.Store.Settled.{NewIds}
use motzworks.Store.Rows.{HasIds}
use motzworks.Store.Found.{IsKeyedByMac, IsSole, upsert_device-moved}

-- The collector reads this description at the target.
module _ (decode : Text → Option Description) (send : Request → Reply) (print_addr : Addr → Text)
    (port : ℕ) where
  pub record Serves (t : Target) (d : Description) : Type 0 where
    pub raw : Text
    pub answers : fetch decode send print_addr port t.addr ≡ some raw
    pub decodes : decode raw ≡ some d
    pub by_avm : is_avm (trim_space d.manufacturer) ≡ true

  collect_served :
      (t : Target) (d : Description)
      → Serves t d
      → collect decode send print_addr port t
        ≡ Collector.ok (record {
          target = t;
          device = record (box_device d) { primary_ip = t.addr };
          related = [];
        })
  unfolding collect parse_desc
  collect_served t d s = rw (s.answers) (rw (s.decodes) (rw (s.by_avm)))

printed_mac-nonempty :
    (o : Option (List ℕ)) (mac : Text) → printed_mac (six o) ≡ some mac → is_empty mac ≡ false
unfolding join
printed_mac-nonempty none mac h = cc
printed_mac-nonempty (some (a ∷ b ∷ c ∷ d ∷ e ∷ f ∷ [])) mac h = ground arith
printed_mac-nonempty (some _) mac h = cc

parse_mac-nonempty : (s mac : Text) → parse_mac s ≡ some mac → is_empty mac ≡ false
unfolding parse_mac parse_mac_6
parse_mac-nonempty s mac h = from (trim_space s) h
  where
    from : (u : Text) → printed_mac (parse_mac_6 u) ≡ some mac → is_empty mac ≡ false
    from [] e = cc
    from (a ∷ []) e = cc
    from (a ∷ b ∷ []) e = cc
    from (a ∷ b ∷ c ∷ u) e = elim (Bool-cases (c == b':' || c == b'-')) [
      | inl sep ↦ printed_mac-nonempty (octets c (a ∷ b ∷ c ∷ u)) mac (rw sep at e)
      | inr dot ↦ printed_mac-nonempty (dotted (a ∷ b ∷ c ∷ u)) mac (rw dot at e)
    ]

-- The device that the engine stores.
abbrev box_at : Device → Description → Addr → Device
box_at base d addr =
    merge_device base (record (box_device d) { primary_ip = addr }) (lit "fritzbox")

module _ (sv : Server) (mac : Text) (global : is_locally_administered sv mac ≡ false)
    (same : sv.mac_eq mac mac ≡ true) where
  box-IsKeyedByMac :
      (base : Device) (d : Description) (addr : Addr)
      → parse_mac d.serial_number ≡ some mac
      → IsKeyedByMac sv (box_at base d addr) mac []
  unfolding merge_device box_device macs_of macs_from
  box-IsKeyedByMac base d addr e = record {
    no_serial = refl;
    no_guid = refl;
    macs = rw e (rw (parse_mac-nonempty d.serial_number mac e, global));
    same_mac = same;
  }

  module _ (up : Answers sv) (new_ids : NewIds sv) (decode : Text → Option Description)
      (send : Request → Reply) (print_addr : Addr → Text) (port : ℕ) where
    -- If the database answers every statement from the devices that it holds, whichever of the
    -- matching ones LIMIT 1 takes, makes up ids that are new and not empty, holds no device with
    -- an empty id, and has at most one device with an interface of a MAC address, and a FRITZ!Box
    -- serves descriptions with this address, which is globally unique and equal to itself for the
    -- database, as its serial number at two targets, then the collector reads both, and what the
    -- engine stores of the second is found under the id that the first got: whatever the addresses
    -- are, and whatever else the descriptions say.
    pub fritzbox-moved :
        (t t' : Target) (d d' : Description) (base base' : Device) (db : Db) (run run' : Text)
        → Serves decode send print_addr port t d
        → Serves decode send print_addr port t' d'
        → parse_mac d.serial_number ≡ some mac
        → parse_mac d'.serial_number ≡ some mac
        → HasIds db.device
        → IsSole sv (mac ∷ []) db
        → (r r' : Result) × (collect decode send print_addr port t ≡ Collector.ok r)
          × (collect decode send print_addr port t' ≡ Collector.ok r')
          × (id : Text) × (changes changes' : List ChangeEvent) × (let first =
                upsert_device sv (merge_device base r.device (lit "fritzbox")) run true db in
              (first.0 ≡ ok (id, changes))
              × ((upsert_device sv
                    (merge_device base' r'.device (lit "fritzbox"))
                    run'
                    true
                    first.1).0
                  ≡ ok (id, changes')))
    fritzbox-moved t t' d d' base base' db run run' s s' e e' h sole =
        let (id, changes, changes', first, second) =
          upsert_device-moved sv up new_ids (box_at base d t.addr) (box_at base' d' t'.addr) mac []
            (box-IsKeyedByMac base d t.addr e) (box-IsKeyedByMac base' d' t'.addr e') db run run' h
            sole in
        (
          record {
            target = t;
            device = record (box_device d) { primary_ip = t.addr };
            related = [];
          },
          record {
            target = t';
            device = record (box_device d') { primary_ip = t'.addr };
            related = [];
          },
          collect_served decode send print_addr port t d s,
          collect_served decode send print_addr port t' d' s',
          id,
          changes,
          changes',
          (first, second),
        )
