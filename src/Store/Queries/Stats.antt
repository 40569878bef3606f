-- ===== src/Store/Queries/Stats.antt =====
-- internal/store/queries.go: Stats, over the answers of the database and over the tables. Time is
-- in nanoseconds.
pub mod Counted
use motzworks.Prelude.{
  ℕ, suc, ◌+◌, ◌≤◌, ◌≡◌, refl, ◌∙◌, Bool, true, false, ◌||◌, List, [], ◌∷◌, ◌++◌, map, Option, none,
  some, arith, length, ltb, contains, keep, if◌then◌else◌,
}
use motzworks.Text.{Text, text_eq, text_Eq}
use motzworks.Store.Db.{DeviceRow, Db, Answer, ok, err}

pub record Stats : Type 0 where
  pub total_devices : ℕ
  pub seen_last_24h : ℕ
  pub by_type : List (Text × ℕ)
  pub last_scan_at : Option ℕ
  pub total_software : ℕ

-- st.ByType[t] = n
unfoldable pub set_key : Text → ℕ → List (Text × ℕ) → List (Text × ℕ)
set_key t n [] = (t, n) ∷ []
set_key t n (e ∷ m) = let rest = set_key t n m in if text_eq e.0 t then (t, n) ∷ m else e ∷ rest

unfoldable pub set_keys : List (Text × ℕ) → List (Text × ℕ) → List (Text × ℕ)
set_keys [] m = m
set_keys (e ∷ rows) m = set_keys rows (set_key e.0 e.1 m)

-- What the five queries answer. The rows of the types may end in an error.
pub record Aggregates : Type 0 where
  pub count_device : Answer ℕ
  pub count_recent : Answer ℕ
  pub count_titles : Answer ℕ
  pub type_rows : Answer (List (Text × ℕ) × Option Text)
  pub max_started : Answer (Option ℕ)

-- `if err := … ; err != nil { return st, err }`
abbrev pub scanned :
    {A : Type 0} → Answer A → Stats → (A → Stats × Option Text) → Stats × Option Text
scanned (err e) st next = (st, some e)
scanned (ok a) st next = next a

abbrev pub rows_err : Option Text → Stats → Stats × Option Text → Stats × Option Text
rows_err none st next = next
rows_err (some e) st next = (st, some e)

abbrev pub no_stats : Stats
no_stats = record {
  total_devices = 0;
  seen_last_24h = 0;
  by_type = [];
  last_scan_at = none;
  total_software = 0;
}

abbrev pub with_types : Aggregates → Stats → List (Text × ℕ) × Option Text → Stats × Option Text
with_types q st (rows, e) =
    let st1 = record st { by_type = set_keys rows [] } in
    rows_err e st1 (scanned q.max_started st1 λ last. (record st1 { last_scan_at = last }, none))

-- Stats; what was read before an error is returned with it.
unfoldable pub stats : Aggregates → Stats × Option Text
stats q = scanned q.count_device no_stats λ total.
    let st1 = record no_stats { total_devices = total } in
    scanned q.count_recent st1 λ recent.
      let st2 = record st1 { seen_last_24h = recent } in
      scanned q.count_titles st2 λ titles.
        let st3 = record st2 { total_software = titles } in
        scanned q.type_rows st3 (with_types q st3)

-- What the queries select from the tables. `types` are the groups of GROUP BY, `last` the
-- max(started_at) of scan_run.
unfoldable pub count_type : Text → List DeviceRow → ℕ
count_type t [] = 0
count_type t (r ∷ rows) =
    let rest = count_type t rows in if text_eq t r.device_type then suc rest else rest

abbrev pub grouped : List Text → List DeviceRow → List (Text × ℕ)
grouped types rows = map (λ t. (t, count_type t rows)) types

-- last_seen > now() - interval '24 hours'
abbrev pub is_recent : ℕ → DeviceRow → Bool
is_recent now r = ltb now (r.last_seen + 86_400_000_000_000)

unfoldable pub titles : Db → List DeviceRow → List Text
titles db [] = []
titles db (r ∷ rows) = map (λ s. s.name) (db.children.software r.id) ++ titles db rows

-- count(DISTINCT …)
unfoldable pub count_distinct : List Text → ℕ
count_distinct [] = 0
count_distinct (s ∷ ss) = let rest = count_distinct ss in if contains ss s then rest else suc rest

unfoldable pub aggregates_of : List Text → ℕ → Option ℕ → Db → Aggregates
aggregates_of types now last db = record {
  count_device = ok (length db.device);
  count_recent = ok (length (keep (is_recent now) db.device));
  count_titles = ok (count_distinct (titles db db.device));
  type_rows = ok (grouped types db.device, none);
  max_started = ok last;
}
