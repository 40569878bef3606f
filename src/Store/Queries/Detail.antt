-- ===== src/Store/Queries/Detail.antt =====
-- internal/store/queries.go: what GetDevice gives.
use motzworks.Prelude.{◌≡◌, ◌↔◌, refl, ap, ◌∙◌, sym, Option, none, some, arith}
use motzworks.Text.{Text}
use motzworks.Store.Queries.Devices.{
  DeviceRow, DeviceDetail, Database, Row, row, no_rows, failed, optional, with_os_name, and_then,
  get_device, detail,
}

-- The parts of a device as the database gives them.
pub record IsAnswer (db : Database) (id : Text) (d : DeviceDetail) (r : DeviceRow) : Type 0 where
  pub has_row : db.device_row id ≡ row r
  pub has_os : optional (db.os_row id) ≡ some d.os
  pub has_hardware : optional (db.hardware_row id) ≡ some d.hardware
  pub has_interfaces : db.interface_rows id ≡ some d.interfaces
  pub has_software : db.software_rows id ≡ some d.software
  pub has_users : db.user_rows id ≡ some d.users
  pub has_item : with_os_name d.os r.item ≡ d.item
  pub has_serial : r.serial ≡ d.serial
  pub has_first_seen : r.first_seen ≡ d.first_seen

-- What a chain of answers gives, each of its links gives.
and_then-some :
    {A : Type 0} {B : Type 0} (o : Option A) (f : A → Option B) (b : B)
    → and_then o f ≡ some b
    → (a : A) × (o ≡ some a) × (f a ≡ some b)
and_then-some none f b h = absurd (ground arith)
and_then-some (some a) f b h = (a, refl, h)

abbrev found_or : DeviceDetail → Option (Option DeviceDetail) → DeviceDetail
found_or d none = d
found_or d (some none) = d
found_or d (some (some e)) = e

module _ (db : Database) (id : Text) where
  detail_parts :
      (x : Row DeviceRow) (d : DeviceDetail)
      → db.device_row id ≡ x
      → detail db id x ≡ some (some d)
      → (r : DeviceRow) × IsAnswer db id d r
  detail_parts failed d e h = absurd (ground arith)
  detail_parts no_rows d e h = absurd (ground arith)
  detail_parts (row r) d e h =
      let (os, e1, h1) = and_then-some (optional (db.os_row id)) _ _ h in
      let (hw, e2, h2) = and_then-some (optional (db.hardware_row id)) _ _ h1 in
      let (interfaces, e3, h3) = and_then-some (db.interface_rows id) _ _ h2 in
      let (software, e4, h4) = and_then-some (db.software_rows id) _ _ h3 in
      let (users, e5, h5) = and_then-some (db.user_rows id) _ _ h4 in
      let same = ap (found_or d) h5 in
      (
        r,
        record {
          has_row = e;
          has_os = e1 ∙ ap (λ v. some v.os) same;
          has_hardware = e2 ∙ ap (λ v. some v.hardware) same;
          has_interfaces = e3 ∙ ap (λ v. some v.interfaces) same;
          has_software = e4 ∙ ap (λ v. some v.software) same;
          has_users = e5 ∙ ap (λ v. some v.users) same;
          has_item = sym (ap (λ v. with_os_name v.os r.item) same) ∙ ap (λ v. v.item) same;
          has_serial = ap (λ v. v.serial) same;
          has_first_seen = ap (λ v. v.first_seen) same;
        },
      )

  -- GetDevice gives a device exactly if every query that it makes answers, the two optional rows
  -- with a row or none, and the device holds their answers, with the name of its system's row.
  pub get_device_iff :
      (d : DeviceDetail)
      → (get_device db id ≡ some (some d)) ↔ ((r : DeviceRow) × IsAnswer db id d r)
  unfolding get_device
  get_device_iff d = (
    λ h. detail_parts (db.device_row id) d refl h,
    λ (r, a).
        rw
          (
            a.has_row, a.has_os, a.has_hardware, a.has_interfaces, a.has_software, a.has_users,
            a.has_item, a.has_serial, a.has_first_seen,
          )
          refl,
  )
