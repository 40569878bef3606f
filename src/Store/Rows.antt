-- ===== src/Store/Rows.antt =====
-- Finding rows of the device table, and after UpsertDevice has updated one or appended one.
use motzworks.Prelude.{
  ◌≡◌, refl, ap, ◌⊎◌, Bool, true, false, ◌||◌, List, [], ◌∷◌, ◌++◌, none, some, arith, find_first,
  Bool-cases, inl, inr, All,
}
use motzworks.Text.{Text, is_empty, text_eq, text_eq_iff}
use motzworks.Model.{Device}
use motzworks.Store.Db.{DeviceRow, Server}
use motzworks.Store.Resolve.{row_id}
use motzworks.Store.Upsert.{updated_row, update_where}

abbrev pub HasIds : List DeviceRow → Type 0
HasIds rows = All (λ r. is_empty r.id ≡ false) rows

unfoldable pub has_id : List DeviceRow → Text → Bool
has_id [] id = false
has_id (r ∷ rows) id = text_eq r.id id || has_id rows id

-- A test of ids that only one id passes finds the row of this id.
pub find_sole :
    (q : Text → Bool) (id : Text) (rows : List DeviceRow)
    → has_id rows id ≡ true
    → q id ≡ true
    → ((i : Text) → q i ≡ true → i ≡ id)
    → row_id (find_first (λ r. q r.id) rows) ≡ id
unfolding has_id
find_sole q id [] h k sole = cc
find_sole q id (r ∷ rows) h k sole = elim (Bool-cases (q r.id)) [
  | inl hit ↦ rw hit (sole r.id hit)
  | inr miss ↦
      let other : text_eq r.id id ≡ false = elim (Bool-cases (text_eq r.id id)) [
        | inl same ↦ absurd (ground (arith, ap q ((text_eq_iff r.id id).0 same), miss, k))
        | inr differs ↦ differs
      ] in
      rw miss (find_sole q id rows (rw other at h) k sole)
]

pub find_nobody :
    (q : Text → Bool) (rows : List DeviceRow)
    → ((i : Text) → q i ≡ false)
    → find_first (λ r. q r.id) rows ≡ none
find_nobody q [] h = refl
find_nobody q (r ∷ rows) h = rw (h r.id) (find_nobody q rows h)

module _ (p : DeviceRow → Bool) where
  pub none_of_empty :
      (rows : List DeviceRow)
      → HasIds rows
      → is_empty (row_id (find_first p rows)) ≡ true
      → find_first p rows ≡ none
  none_of_empty [] h e = refl
  none_of_empty (r ∷ rows) h e = ground (arith, none_of_empty rows h.1)

  pub has_id_of_found :
      (rows : List DeviceRow)
      → is_empty (row_id (find_first p rows)) ≡ false
      → has_id rows (row_id (find_first p rows)) ≡ true
  unfolding has_id
  has_id_of_found [] e = cc
  has_id_of_found (r ∷ rows) e = ground (arith, has_id_of_found rows, text_eq_iff r.id r.id)

  pub find_appended :
      (rows : List DeviceRow) (r : DeviceRow)
      → find_first p rows ≡ none
      → p r ≡ true
      → find_first p (rows ++ r ∷ []) ≡ some r
  find_appended [] r e h = rw h
  find_appended (x ∷ rows) r e h = ground (arith, find_appended rows r)

  module _ (sv : Server) (d : Device) (hit : (r : DeviceRow) → p (updated_row sv d r) ≡ true) where
    -- The first match after the update is the updated row, if it was before or there was none.
    pub find_updated :
        (id : Text) (rows : List DeviceRow)
        → has_id rows id ≡ true
        → (row_id (find_first p rows) ≡ id) ⊎ (find_first p rows ≡ none)
        → (r : DeviceRow) × (find_first p (update_where sv d id rows) ≡ some (updated_row sv d r))
          × (r.id ≡ id)
    unfolding update_where has_id
    find_updated id [] h m = cc
    find_updated id (r ∷ rows) h m = elim (Bool-cases (text_eq r.id id)) [
      | inl same ↦ (r, rw (same, hit r), (text_eq_iff r.id id).0 same)
      | inr other ↦ elim (Bool-cases (p r)) [
        | inl yes_p ↦ absurd (ground (arith, text_eq_iff r.id id))
        | inr no_p ↦
            let (r', e, i) = find_updated id rows (ground arith) (ground arith) in
            (r', rw (other, no_p) e, i)
      ]
    ]

pub find_id_updated :
    (sv : Server) (d : Device) (id : Text) (rows : List DeviceRow)
    → has_id rows id ≡ true
    → (r : DeviceRow) × (find_first (λ x. text_eq x.id id) (update_where sv d id rows)
        ≡ some (updated_row sv d r))
unfolding update_where has_id updated_row
find_id_updated sv d id [] h = cc
find_id_updated sv d id (r ∷ rows) h = elim (Bool-cases (text_eq r.id id)) [
  | inl same ↦ (r, rw (same, same))
  | inr other ↦
      let (r', e) = find_id_updated sv d id rows (ground arith) in (r', rw (other, other) e)
]
