-- ===== src/Store/Tests.antt =====
-- Examples for the theorems on UpsertDevice.
use mathlib.Core.List.Perm
use motzworks.Prelude.{
  not, ◌&&◌, ◌||◌, ◌≡◌, ◌≤◌, refl, true, false, List, [], ◌∷◌, ◌++◌, none, some, contains, length,
  map, if◌then◌else◌,
}
use motzworks.Prelude.Int.{pos, negsuc}
use motzworks.Store.Accounts.{page_limit}
use motzworks.Store.Queries.{DeviceFilter, text, number}
use motzworks.Store.Queries.Devices.{
  count_query, page_query, Database, DeviceDetail, no_rows, get_device,
}
use motzworks.Store.Queries.Tables.{View, ViewLaws, over_tables}
use motzworks.Store.Queries.Stats.{stats, count_type, aggregates_of}
use motzworks.Store.Queries.Stats.Counted.{value_at, sum_values, stats-aggregates_of}
use motzworks.Store.Queries.Readback.{IsShown, get_device-upsert_device}
use motzworks.Store.Queries.Lists.{
  rollup_query, rollup_where, with_software_query, changes_query, changes_where, scans_query,
  scan_events_query,
}
use motzworks.Store.Queries.Shape.{IsSameShape, device_queries_text, IsLimited, queries_limits}
use motzworks.Store.Migrate.{
  Base, Calls, Entry, finished, migrate, sort, insert, sql_files, has_suffix, version_of, apply,
  apply_all, exec_file, text_ltb,
}
use motzworks.Store.Migrate.Recorded.{exec_all, IsRun, migrate-IsRun}
use motzworks.Store.Migrate.Again.{pending, migrate_finished}
use motzworks.Text.{Text, text_Eq, lit, has_prefix, is_empty, text_eq, trim_space}
use motzworks.Store.Db.{insert_relationship, ChangeEvent, ok}
use motzworks.Store.Upsert.{upsert_device, create_relationship, relation_known}
use motzworks.Store.Relations.{answered, create_relationship-again}
use motzworks.Store.Rescan.{upsert_device-rescan}
use motzworks.Store.Shallow.{upsert_device-shallow}
use motzworks.Store.Samples.{server, server-Answers, server-NewIds, sample_db, sample_device}

abbrev run_id : Text
run_id = b'r' ∷ []

upsert_device-rescan_example :
    let first = upsert_device (server none) sample_device [] true sample_db in
    (id : Text) × (changes : List ChangeEvent) × (first.0 ≡ ok (id, changes))
    × ((upsert_device (server none) sample_device run_id true first.1).0 ≡ ok (id, []))
unfolding server
upsert_device-rescan_example =
    upsert_device-rescan (server none) server-Answers server-NewIds sample_device sample_db []
      run_id (refl, tt) refl (λ h. refl)

upsert_device-shallow_example :
    (upsert_device (server (some [])) sample_device run_id false sample_db).1.children
    ≡ sample_db.children
upsert_device-shallow_example =
    upsert_device-shallow (server (some [])) sample_device run_id sample_db

create_relationship-again_example :
    let once =
      (create_relationship (server none) (b'a' ∷ []) (b'b' ∷ []) (b'v' ∷ []) sample_db).1 in
    ((create_relationship (server none) (b'a' ∷ []) (b'b' ∷ []) (b'v' ∷ []) once).1 ≡ once)
    × (once.device ≡ sample_db.device)
    × (relation_known (b'a' ∷ []) (b'b' ∷ []) (b'v' ∷ []) once.relationship ≡ (
        relation_known (b'a' ∷ []) (b'b' ∷ []) (b'v' ∷ []) []
        || (not (is_empty (b'a' ∷ []) || is_empty (b'b' ∷ []) || text_eq (b'a' ∷ []) (b'b' ∷ []))
            && answered ((server none).fault insert_relationship))))
create_relationship-again_example =
    create_relationship-again (server none) (b'a' ∷ []) (b'b' ∷ []) (b'v' ∷ []) sample_db

-- Two filters that ask for different words.
abbrev filter : Text → DeviceFilter
filter q = record { query = q; type = []; limit = pos 10_000; offset = pos 0 }

same_shape : IsSameShape (filter (b'a' ∷ [])) (filter (b'%' ∷ b'b' ∷ []))
unfolding trim_space
same_shape = record { same_query = refl; same_type = refl }

device_queries_text_example :
    ((count_query (filter (b'a' ∷ []))).sql ≡ (count_query (filter (b'%' ∷ b'b' ∷ []))).sql)
    × ((page_query (filter (b'a' ∷ []))).sql ≡ (page_query (filter (b'%' ∷ b'b' ∷ []))).sql)
    × ((page_query (filter (b'a' ∷ []))).args
        ≡ (count_query (filter (b'a' ∷ []))).args
          ++ number (pos (page_limit 50 500 (pos 10_000))) ∷ number (pos 0) ∷ [])
device_queries_text_example =
    device_queries_text (filter (b'a' ∷ [])) (filter (b'%' ∷ b'b' ∷ [])) same_shape

queries_limits_example :
    IsLimited 500 (count_query (filter [])).args (page_query (filter [])) (number (pos 0) ∷ [])
    × IsLimited 1000
        (rollup_where (trim_space [])).1
        (rollup_query [] (pos 9) (negsuc 0) [])
        (number (pos 0) ∷ [])
    × IsLimited 2000 (text [] ∷ text [] ∷ []) (with_software_query [] [] (pos 9)) []
    × IsLimited 500 (changes_where (b'd' ∷ [])).1 (changes_query (b'd' ∷ []) (pos 9)) []
    × IsLimited 200 [] (scans_query (pos 9)) []
    × IsLimited 5000 (text (b'd' ∷ []) ∷ []) (scan_events_query (b'd' ∷ []) (pos 9)) []
queries_limits_example = queries_limits (filter []) [] [] (b'd' ∷ []) (pos 9) (negsuc 0)

-- A schema is the text of what was executed.
abbrev entries : List Entry
entries =
    record { name = lit "2.sql"; is_dir = false }
    ∷ record { name = lit "1.sql"; is_dir = false }
    ∷ record { name = lit "notes"; is_dir = false }
    ∷ []

abbrev calls : Calls Text
calls = record {
  create_fails = false;
  read_dir = some entries;
  exists_fails = λ v. false;
  read_file = λ f. some f;
  exec = λ sql s. some (s ++ sql);
  insert_fails = λ v. false;
}

abbrev fresh : Base Text
fresh = record { versions = []; schema = [] }

migrate-IsRun_example : (done : List Text) × IsRun calls fresh (migrate calls fresh) [] done
migrate-IsRun_example = migrate-IsRun calls fresh

-- The first migration is recorded, and its text executes no second time.
abbrev second_calls : Calls Text
second_calls = record calls {
  exec = λ sql s. if text_eq sql (lit "1.sql") then none else some (s ++ sql);
}

abbrev first_done : Base Text
first_done = record { versions = lit "1" ∷ []; schema = lit "1.sql" }

migrate_finished_example :
    let missing = pending first_done.versions (sort (sql_files entries)) in
    migrate second_calls first_done ≡ (
      finished (map version_of missing),
      record {
        versions = first_done.versions ++ map version_of missing;
        schema = lit "1.sql2.sql";
      },
    )
unfolding exec_all exec_file sort insert sql_files has_suffix has_prefix version_of contains lit
    text_eq pending text_ltb
migrate_finished_example =
    migrate_finished second_calls first_done entries (lit "1.sql2.sql") refl refl
      (record { answers = λ v. refl; inserts = λ v. refl }) (refl, (refl, tt)) refl

abbrev one_file : Calls Text
one_file = record calls { read_dir = some (record { name = lit "1.sql"; is_dir = false } ∷ []) }

one_migration : (migrate one_file fresh).0 ≡ finished (lit "1" ∷ [])
unfolding migrate sort insert sql_files has_suffix has_prefix version_of apply apply_all exec_file
    contains lit
one_migration = refl

-- A database that keeps its rows in the order of their insertion.
abbrev view : View
view = record {
  mac_text = λ m. m;
  host = λ a. a;
  by_name = λ rows. rows;
  by_lower_name = λ rows. rows;
  by_username = λ rows. rows;
}

view-ViewLaws : ViewLaws view
view-ViewLaws = record {
  by_name_law = λ rows. Perm.refl rows;
  by_lower_name_law = λ rows. Perm.refl rows;
  by_username_law = λ rows. Perm.refl rows;
}

abbrev silent : Database
silent = record {
  count = λ q. no_rows;
  list_items = λ q. none;
  device_row = λ id. no_rows;
  os_row = λ id. no_rows;
  hardware_row = λ id. no_rows;
  interface_rows = λ id. none;
  software_rows = λ id. none;
  user_rows = λ id. none;
}

get_device-upsert_device_example :
    (id : Text) × (changes : List ChangeEvent) × (x : DeviceDetail) × (let r =
        upsert_device (server none) sample_device [] true sample_db in
      (r.0 ≡ ok (id, changes)) × (get_device (over_tables view silent r.1) id ≡ some (some x)))
    × IsShown (server none) view sample_device sample_db id x
get_device-upsert_device_example =
    get_device-upsert_device view view-ViewLaws silent (server none) server-Answers server-NewIds
      sample_device [] sample_db

stats-aggregates_of_example :
    let (st, e) = stats (aggregates_of ([] ∷ []) 7 none sample_db) in
    (e ≡ none)
    × ((t : Text) → value_at t st.by_type ≡ count_type t sample_db.device)
    × (sum_values st.by_type ≡ st.total_devices)
    × (st.total_devices ≡ length sample_db.device)
    × (st.seen_last_24h ≤ st.total_devices)
unfolding contains text_eq
stats-aggregates_of_example =
    stats-aggregates_of ([] ∷ []) 7 none sample_db
      (record { once = (refl, tt); covers = (refl, tt) })
