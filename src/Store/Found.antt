-- ===== src/Store/Found.antt =====
-- A device without a serial number that UpsertDevice finds again by the MAC addresses of its
-- interfaces (internal/store/devices.go).
use motzworks.Prelude.{
  ◌≡◌, refl, sym, subst, ap, ◌∙◌, Bool, true, false, List, [], ◌∷◌, ◌++◌, map, some, arith,
  find_first, Bool-cases, inl, inr, if◌then◌else◌,
}
use motzworks.Text.{Text, is_empty, text_eq, text_eq_iff}
use motzworks.Model.{Device, Interface}
use motzworks.Store.Db.{
  by_serial, by_ad_guid, by_mac, by_hostname, by_ip, null_str, put, DeviceRow, ChangeEvent, Db,
  InterfaceRow, Server, ok,
}
use motzworks.Store.Diff.{macs_from, macs_of}
use motzworks.Store.Resolve.{keys, applies, matches, has_mac, any_mac, row_id}
use motzworks.Store.Upsert.{interface_row, new_row, updated_row, update_where, upsert_device}
use motzworks.Store.Runs.{Answers, found_id, snapshot}
use motzworks.Store.Settled.{NewIds, settled_id, settled_rows, settled_changes, upsert_ok}
use motzworks.Store.Rows.{HasIds, has_id, find_sole}
use motzworks.Store.Rescan.{found_has_id}

null_str-some : (s : Text) → is_empty s ≡ false → null_str s ≡ some s
unfolding null_str
null_str-some [] h = cc
null_str-some (c ∷ s) h = refl

module _ (sv : Server) (d : Device) where
  -- A stored interface with one of the device's MAC addresses.
  stored_mac :
      (macs : List Text) (l : List Interface) (m : Text) (ms : List Text)
      → macs_from sv l ≡ m ∷ ms
      → any_mac sv macs (some m) ≡ true
      → has_mac sv macs (map (interface_row sv d) l) ≡ true
  unfolding macs_from has_mac interface_row
  stored_mac macs [] m ms e h = cc
  stored_mac macs (i ∷ l) m ms e h = ground (arith, null_str-some i.mac, stored_mac macs l m ms)

-- A device that only its MAC addresses, its name or its address can identify.
pub record IsKeyedByMac (sv : Server) (d : Device) (m : Text) (ms : List Text) : Type 0 where
  pub no_serial : is_empty d.serial ≡ true
  pub no_guid : is_empty d.ad_guid ≡ true
  pub macs : macs_of sv d ≡ m ∷ ms
  pub same_mac : sv.mac_eq m m ≡ true

has_id-appended : (rows : List DeviceRow) (r : DeviceRow) → has_id (rows ++ r ∷ []) r.id ≡ true
unfolding has_id
has_id-appended [] r = ground (arith, text_eq_iff r.id r.id)
has_id-appended (x ∷ rows) r = ground (arith, has_id-appended rows r)

has_id-updated :
    (sv : Server) (d : Device) (id : Text) (rows : List DeviceRow)
    → has_id rows id ≡ true
    → has_id (update_where sv d id rows) id ≡ true
unfolding has_id update_where updated_row
has_id-updated sv d id [] h = h
has_id-updated sv d id (r ∷ rows) h = elim (Bool-cases (text_eq r.id id)) [
  | inl same ↦ rw (same, same) refl
  | inr other ↦ rw (other, other) (has_id-updated sv d id rows (rw other at h))
]

named_of :
    (rows : List DeviceRow) (h : Text) → HasIds rows → has_id rows h ≡ true → is_empty h ≡ false
unfolding has_id
named_of [] h ids has = cc
named_of (r ∷ rows) h ids has = elim (Bool-cases (text_eq r.id h)) [
  | inl same ↦ subst (λ i. is_empty i ≡ false) ((text_eq_iff r.id h).0 same) ids.0
  | inr other ↦ named_of rows h ids.1 (rw other at has)
]

module _ (sv : Server) (macs : List Text) (db : Db) where
  abbrev pub holds_mac : Text → Bool
  holds_mac i = has_mac sv macs (db.children.interfaces i)

  -- No device has an interface with one of the MAC addresses, or just one has.
  pub data IsSole : Type 0 where
    nobody : ((i : Text) → holds_mac i ≡ false) → IsSole
    holder :
        (h : Text)
        → has_id db.device h ≡ true
        → holds_mac h ≡ true
        → ((i : Text) → holds_mac i ≡ true → i ≡ h)
        → IsSole

module _ (sv : Server) (up : Answers sv) (new_ids : NewIds sv) where
  module _ (d : Device) (m : Text) (ms : List Text) (k : IsKeyedByMac sv d m ms) where
    applies_macs :
        (applies sv by_serial d ≡ false)
        × (applies sv by_ad_guid d ≡ false)
        × (applies sv by_mac d ≡ true)
    unfolding applies
    applies_macs = (rw k.no_serial refl, rw k.no_guid refl, rw (k.macs, applies) refl)

    found_by_mac :
        (db : Db)
        → let id = row_id (find_first (matches sv by_mac d db) (sv.visit by_mac db)) in
          found_id sv up d keys db
          ≡ (if is_empty id then found_id sv up d (by_hostname ∷ by_ip ∷ []) db else id)
    unfolding found_id
    found_by_mac db =
        let (no_serial, no_guid, by_macs) = applies_macs in rw (no_serial, no_guid, by_macs) refl

    -- The device that alone has the MAC is found, in whatever order the devices are visited.
    found_sole :
        (db : Db) (h : Text)
        → is_empty h ≡ false
        → has_id db.device h ≡ true
        → holds_mac sv (m ∷ ms) db h ≡ true
        → ((i : Text) → holds_mac sv (m ∷ ms) db i ≡ true → i ≡ h)
        → found_id sv up d keys db ≡ h
    unfolding matches
    found_sole db h named has hit sole =
        let id : row_id (find_first (matches sv by_mac d db) (sv.visit by_mac db)) ≡ h =
          find_sole (λ i. has_mac sv (macs_of sv d) (db.children.interfaces i)) h
            (sv.visit by_mac db) (up.visits by_mac db h ∙ has) (rw k.macs hit)
            (λ i e. sole i (rw k.macs at e)) in
        found_by_mac db ∙ rw (id, named) refl

    settled_same : (h : Text) (db : Db) → is_empty h ≡ false → settled_id sv d h db ≡ h
    settled_same [] db e = cc
    settled_same (c ∷ s) db e = refl

    settled_named : (found : Text) (db : Db) → is_empty (settled_id sv d found db) ≡ false
    settled_named [] db = new_ids.nonempty db
    settled_named (c ∷ s) db = refl

    has_settled :
        (found : Text) (db : Db)
        → (is_empty found ≡ false → has_id db.device found ≡ true)
        → has_id (settled_rows sv d found db) (settled_id sv d found db) ≡ true
    unfolding new_row
    has_settled [] db has = has_id-appended db.device (new_row sv d (sv.new_id db))
    has_settled (c ∷ s) db has = has_id-updated sv d (c ∷ s) db.device (has refl)

    -- The device that a call settles on is the one that had the MAC before, if one had it.
    settled_holder :
        (db : Db)
        → HasIds db.device
        → IsSole sv (m ∷ ms) db
        → (i : Text) → holds_mac sv (m ∷ ms) db i ≡ true
        → i ≡ settled_id sv d (found_id sv up d keys db) db
    settled_holder db ids (nobody none_has) i e = absurd (ground (arith, none_has i))
    settled_holder db ids (holder h has hit sole) i e =
        let named = named_of db.device h ids has in
        sole i e ∙ sym (rw (found_sole db h named has hit sole) (settled_same h db named))

  module _ (d d' : Device) (m : Text) (ms : List Text) (k : IsKeyedByMac sv d m ms)
      (k' : IsKeyedByMac sv d' m ms) where
    macs_listed : macs_from sv d.interfaces ≡ m ∷ ms
    unfolding macs_of
    macs_listed = k.macs

    -- Who has the MAC afterwards.
    holds_stored :
        (id i : Text) (t : Text → List InterfaceRow)
        → has_mac sv (m ∷ ms) (put id (map (interface_row sv d) d.interfaces) t i)
          ≡ (if text_eq id i then true else has_mac sv (m ∷ ms) (t i))
    unfolding put any_mac
    holds_stored id i t = elim (Bool-cases (text_eq id i)) [
      | inl same ↦ rw same (stored_mac sv d (m ∷ ms) d.interfaces m ms macs_listed (rw k.same_mac))
      | inr other ↦ rw other
    ]

    again :
        (run : Text) (db : Db) (id : Text)
        → found_id sv up d' keys db ≡ id
        → is_empty id ≡ false
        → (changes : List ChangeEvent) × ((upsert_device sv d' run true db).0 ≡ ok (id, changes))
    again run db [] e n = cc
    again run db (c ∷ s) e n =
        let two = upsert_ok sv up d' run db in
        (
          settled_changes sv d' (c ∷ s) (snapshot sv up d' (c ∷ s) db),
          ap (λ r. r.0) two.1.0 ∙ rw e refl,
        )

    -- If the database answers every statement, makes up ids that are new and not empty, holds no
    -- device with an empty id, and at most one device has an interface with one of the MAC
    -- addresses, then a device without a serial number and a directory's id whose interfaces have
    -- these globally unique MAC addresses is found the second time under the id that the first call
    -- returned, whatever its name and its address are then.
    pub upsert_device-moved :
        (db : Db) (run run' : Text)
        → HasIds db.device
        → IsSole sv (m ∷ ms) db
        → let first = upsert_device sv d run true db in
          (id : Text) × (changes changes' : List ChangeEvent) × (first.0 ≡ ok (id, changes))
          × ((upsert_device sv d' run' true first.1).0 ≡ ok (id, changes'))
    upsert_device-moved db run run' ids sole =
        let found = found_id sv up d keys db in
        let id = settled_id sv d found db in
        let one = upsert_ok sv up d run db in
        let db1 = one.0 in
        let (e, g, o) = one.1 in
        let named = settled_named d m ms k found db in
        let after : (i : Text)
            → has_mac sv (m ∷ ms) (db1.children.interfaces i)
              ≡ (if text_eq id i then true else has_mac sv (m ∷ ms) (db.children.interfaces i)) =
          λ i. rw (ap (λ c. c.interfaces) o) (holds_stored id i db.children.interfaces) in
        let hit : found_id sv up d' keys db1 ≡ id =
          found_sole d' m ms k' db1 id named
            (rw g (has_settled d m ms k found db (found_has_id sv up d keys db)))
            (after id ∙ rw ((text_eq_iff id id).1 refl) refl)
            (λ i e'. elim (Bool-cases (text_eq id i)) [
              | inl same ↦ sym ((text_eq_iff id i).0 same)
              | inr other ↦
                  settled_holder d m ms k db ids sole i (sym (after i ∙ rw other refl) ∙ e')
            ]) in
        let (changes', e') = again run' db1 id hit named in
        (
          id,
          settled_changes sv d found (snapshot sv up d found db),
          changes',
          ap (λ r. r.0) e,
          rw e e',
        )
