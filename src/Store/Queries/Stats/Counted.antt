-- ===== src/Store/Queries/Stats/Counted.antt =====
-- The numbers that Stats of internal/store/queries.go gives over the tables.
use motzworks.Prelude.{
  ℕ, ◌+◌, ◌≤◌, ◌≡◌, refl, sym, ap, ◌∙◌, Bool, true, false, ◌||◌, List, [], ◌∷◌, map, Option, none,
  arith, length, keep, contains, Distinct, All, if◌then◌else◌, Bool-cases, inl, inr,
}
use motzworks.Text.{Text, text_eq, text_eq_iff, text_Eq}
use motzworks.Store.Db.{DeviceRow, Db}
use motzworks.Store.Queries.Stats.{set_key, set_keys, stats, count_type, grouped, aggregates_of}

-- m[t], which is 0 if the key is missing.
pub value_at : Text → List (Text × ℕ) → ℕ
value_at t [] = 0
value_at t (e ∷ m) = if text_eq e.0 t then e.1 else value_at t m

pub sum_values : List (Text × ℕ) → ℕ
sum_values [] = 0
sum_values (e ∷ m) = e.1 + sum_values m

-- GROUP BY gives no group twice, and a group for every row.
pub record IsGrouping (types : List Text) (rows : List DeviceRow) : Type 0 where
  pub once : Distinct types
  pub covers : All (λ r. contains types r.device_type ≡ true) rows

-- The type of no row has no count.
count_type-none :
    (t : Text) (types : List Text) (rows : List DeviceRow)
    → contains types t ≡ false
    → All (λ r. contains types r.device_type ≡ true) rows
    → count_type t rows ≡ 0
unfolding count_type
count_type-none t types [] h c = refl
count_type-none t types (r ∷ rows) h c = elim (Bool-cases (text_eq t r.device_type)) [
  | inl hit ↦
      absurd (ground (arith, ap (contains types) ((text_eq_iff t r.device_type).0 hit), h, c.0))
  | inr miss ↦ rw miss (count_type-none t types rows h c.1)
]

value_at-set_key :
    (k t : Text) (n : ℕ) (m : List (Text × ℕ))
    → value_at k (set_key t n m) ≡ (if text_eq t k then n else value_at k m)
unfolding value_at set_key
value_at-set_key k t n [] = refl
value_at-set_key k t n (e ∷ m) = elim (Bool-cases (text_eq e.0 t)) [
  | inl hit ↦ rw hit (rw ((text_eq_iff _ _).0 hit) (ground arith))
  | inr miss ↦ rw miss (elim (Bool-cases (text_eq e.0 k)) [
    | inl same ↦ ground (arith, text_eq_iff e.0 k, text_eq_iff t k, text_eq_iff e.0 t)
    | inr other ↦ rw other (value_at-set_key k t n m)
  ])
]

abbrev keys : List (Text × ℕ) → List Text
keys m = map (λ e. e.0) m

contains-keys-set_key :
    (k t : Text) (n : ℕ) (m : List (Text × ℕ))
    → contains (keys (set_key t n m)) k ≡ (contains (keys m) k || text_eq t k)
unfolding contains set_key
contains-keys-set_key k t n [] = ground arith
contains-keys-set_key k t n (e ∷ m) = elim (Bool-cases (text_eq e.0 t)) [
  | inl hit ↦ rw hit (rw ((text_eq_iff _ _).0 hit) (ground arith))
  | inr miss ↦ rw (miss, contains-keys-set_key k t n m) (ground arith)
]

sum_values-set_key :
    (t : Text) (n : ℕ) (m : List (Text × ℕ))
    → contains (keys m) t ≡ false
    → sum_values (set_key t n m) ≡ n + sum_values m
unfolding contains set_key sum_values
sum_values-set_key t n [] h = refl
sum_values-set_key t n (e ∷ m) h =
    let miss : text_eq e.0 t ≡ false = ground arith in
    let rest : contains (keys m) t ≡ false = ground arith in
    rw miss (omega (arith, sum_values-set_key t n m rest))

sum_counts : List Text → List DeviceRow → ℕ
sum_counts [] rows = 0
sum_counts (t ∷ ts) rows = count_type t rows + sum_counts ts rows

sum_counts-nil : (types : List Text) → sum_counts types [] ≡ 0
unfolding sum_counts count_type
sum_counts-nil [] = refl
sum_counts-nil (t ∷ ts) = omega (arith, sum_counts-nil ts)

-- A device is counted once, in the group of its type.
sum_counts-cons :
    (types : List Text) (r : DeviceRow) (rows : List DeviceRow)
    → Distinct types
    → sum_counts types (r ∷ rows)
      ≡ (if contains types r.device_type then 1 else 0) + sum_counts types rows
unfolding sum_counts count_type contains
sum_counts-cons [] r rows d = refl
sum_counts-cons (t ∷ ts) r rows d = elim (Bool-cases (text_eq t r.device_type)) [
  | inl hit ↦
      let absent : contains ts r.device_type ≡ false =
        sym (ap (contains ts) ((text_eq_iff t r.device_type).0 hit)) ∙ d.0 in
      let rest : sum_counts ts (r ∷ rows) ≡ sum_counts ts rows =
        sum_counts-cons ts r rows d.1 ∙ rw absent (omega arith) in
      rw hit (rw rest (omega arith))
  | inr miss ↦ rw miss (omega (arith, sum_counts-cons ts r rows d.1))
]

sum_counts-length :
    (types : List Text) (rows : List DeviceRow)
    → IsGrouping types rows
    → sum_counts types rows ≡ length rows
sum_counts-length types [] g = sum_counts-nil types
sum_counts-length types (r ∷ rows) g =
    sum_counts-cons types r rows g.once
    ∙ rw g.covers.0 (
        omega (arith, sum_counts-length types rows (record { once = g.once; covers = g.covers.1 })))

module _ (rows : List DeviceRow) where
  value_at-set_keys :
      (k : Text) (types : List Text) (m : List (Text × ℕ))
      → value_at k (set_keys (grouped types rows) m)
        ≡ (if contains types k then count_type k rows else value_at k m)
  unfolding set_keys contains
  value_at-set_keys k [] m = refl
  value_at-set_keys k (t ∷ ts) m =
      value_at-set_keys k ts (set_key t (count_type t rows) m) ∙ elim (Bool-cases (text_eq t k)) [
        | inl hit ↦
            rw (value_at-set_key k t (count_type t rows) m)
              (rw ((text_eq_iff t k).0 hit) (ground arith))
        | inr miss ↦ rw (value_at-set_key k t (count_type t rows) m, miss) refl
      ]

  sum_values-set_keys :
      (types : List Text) (m : List (Text × ℕ))
      → Distinct types
      → ((k : Text) → contains types k ≡ true → contains (keys m) k ≡ false)
      → sum_values (set_keys (grouped types rows) m) ≡ sum_counts types rows + sum_values m
  unfolding set_keys contains sum_counts
  sum_values-set_keys [] m d h = omega arith
  sum_values-set_keys (t ∷ ts) m d h =
      let n = count_type t rows in
      let fresh : contains (keys m) t ≡ false = h t (rw ((text_eq_iff t t).1 refl) refl) in
      let apart : (k : Text) → contains ts k ≡ true → contains (keys (set_key t n m)) k ≡ false =
        λ k e.
          let miss : contains (keys m) k ≡ false = h k (ground arith) in
          let other : text_eq t k ≡ false = elim (Bool-cases (text_eq t k)) [
            | inl hit ↦ absurd (ground (arith, ap (contains ts) ((text_eq_iff t k).0 hit), d.0, e))
            | inr differs ↦ differs
          ] in
          contains-keys-set_key k t n m ∙ rw (miss, other) refl in
      omega
        (arith, sum_values-set_keys ts (set_key t n m) d.1 apart, sum_values-set_key t n m fresh)

length-keep : {A : Type 0} (p : A → Bool) (xs : List A) → length (keep p xs) ≤ length xs
length-keep p [] = omega arith
length-keep p (x ∷ xs) = elim (Bool-cases (p x)) [
  | inl e ↦ rw e (omega (arith, length-keep p xs))
  | inr e ↦ rw e (omega (arith, length-keep p xs))
]

-- If GROUP BY gives no group twice and one for the type of every device, Stats over the tables has
-- no error; the number it gives for a type, 0 if it gives none, is the number of devices of this
-- type; these numbers add up to the total, which is the number of devices; and no more devices
-- than that have been seen in the last 24 hours.
pub stats-aggregates_of :
    (types : List Text) (now : ℕ) (last : Option ℕ) (db : Db)
    → IsGrouping types db.device
    → let (st, e) = stats (aggregates_of types now last db) in
      (e ≡ none)
      × ((t : Text) → value_at t st.by_type ≡ count_type t db.device)
      × (sum_values st.by_type ≡ st.total_devices)
      × (st.total_devices ≡ length db.device)
      × (st.seen_last_24h ≤ st.total_devices)
unfolding stats aggregates_of sum_values value_at contains
stats-aggregates_of types now last db g = (
  refl,
  λ t. value_at-set_keys db.device t types [] ∙ elim (Bool-cases (contains types t)) [
    | inl e ↦ rw e refl
    | inr e ↦ rw (e, count_type-none t types db.device e g.covers) refl
  ],
  sum_values-set_keys db.device types [] g.once (λ k e. refl)
      ∙ omega (arith, sum_counts-length types db.device g),
  refl,
  length-keep _ db.device,
)
