-- ===== src/Snmp/Rows.antt =====
-- internal/collector/snmp/snmp.go: what the order in which Go visits a map does to the rows.
use mathlib.Core.List.{Perm}
use mathlib.Core.List.Perm
use motzworks.Prelude.{
  ℕ, ◌≡◌, refl, ap, inl, inr, false, List, [], ◌∷◌, Option, none, some, Bool-cases, arith,
  if◌then◌else◌,
}
use motzworks.Text.{Text, lit, text_eq, text_eq_iff, is_empty, trim_space}
use motzworks.Snmp.Values.{Pdu, pdu_string}
use motzworks.Snmp.Tables.{Column, get, walk_column, first_hardware, hardware_at, collect_hardware}

-- An order of visiting: every column is visited entry by entry.
unfoldable pub IsOrder : (Column → Column) → Type 0
IsOrder order = (col : Column) → Perm (order col) col

-- The order that visits the entry of a key first.
abbrev second : Text × Pdu → Column → Column
second e [] = e ∷ []
second e (x ∷ rest) = x ∷ e ∷ rest

unfoldable pub key_first : Text → Column → Column
key_first k [] = []
key_first k (e ∷ col) =
    let rest = key_first k col in if text_eq e.0 k then e ∷ col else second e rest

second-Perm : (e : Text × Pdu) (col : Column) → Perm (second e col) (e ∷ col)
second-Perm e [] = Perm.refl (e ∷ [])
second-Perm e (x ∷ rest) = Perm.swap e x rest

pub key_first-IsOrder : (k : Text) → IsOrder (key_first k)
unfolding IsOrder key_first
key_first-IsOrder k [] = Perm.nil
key_first-IsOrder k (e ∷ col) = elim (Bool-cases (text_eq e.0 k)) [
  | inl h ↦ rw h (Perm.refl (e ∷ col))
  | inr h ↦
      rw h (Perm.trans (second-Perm e (key_first k col)) (Perm.cons e (key_first-IsOrder k col)))
]

abbrev pdu_or : Pdu → Option Pdu → Pdu
pdu_or p none = p
pdu_or p (some q) = q

key_first-get :
    (k : Text) (p : Pdu) (col : Column)
    → get k col ≡ some p
    → (rest : Column) × (key_first k col ≡ (k, p) ∷ rest)
unfolding key_first get
key_first-get k p [] h = absurd (ground arith)
key_first-get k p ((k', q) ∷ col) h = elim (Bool-cases (text_eq k' k)) [
  | inl e ↦
      let same_key : k' ≡ k = (text_eq_iff k' k).0 e in
      let same_pdu : q ≡ p = ap (pdu_or p) (rw e at h) in (col, rw (e, same_key, same_pdu) refl)
  | inr e ↦ let (rest, r) = key_first-get k p col (rw e at h) in ((k', q) ∷ rest, rw (e, r) refl)
]

module _ (to_text : List ℕ → Text) where
  -- Every row of the serial numbers whose text is not blank is the one that is reported, in some
  -- order of visiting the map: the order of Go's map, not the order of the rows, decides which
  -- serial number the device gets.
  pub collect_hardware_any :
      (walk : Text → List Pdu) (k : Text) (p : Pdu)
      → get k (walk_column walk (lit "1.3.6.1.2.1.47.1.1.1.1.11")) ≡ some p
      → is_empty (trim_space (pdu_string to_text p.value)) ≡ false
      → (order : Column → Column) × IsOrder order
        × (collect_hardware to_text order walk
            ≡ some (
                hardware_at to_text
                  (walk_column walk (lit "1.3.6.1.2.1.47.1.1.1.1.13"))
                  (walk_column walk (lit "1.3.6.1.2.1.47.1.1.1.1.12"))
                  k
                  (trim_space (pdu_string to_text p.value))))
  unfolding collect_hardware first_hardware
  collect_hardware_any walk k p h n =
      let (rest, e) = key_first-get k p _ h in (key_first k, key_first-IsOrder k, rw (e, n) refl)
