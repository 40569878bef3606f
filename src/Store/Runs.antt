-- ===== src/Store/Runs.antt =====
-- UpsertDevice while the database answers every statement: what each of its parts returns, and
-- what it leaves in the tables.
use motzworks.Prelude.{
  ◌≡◌, refl, sym, ap, ◌∙◌, List, [], ◌∷◌, Option, none, some, if◌then◌else◌, find_first, Bool-cases,
  inl, inr,
}
use motzworks.Text.{Text, is_empty, is_empty-eq}
use motzworks.Model.{Device, OsInfo}
use motzworks.Store.Db.{
  Key, null_str, OsRow, ChangeEvent, Db, Stmt, select_id, select_scalars, select_os, insert_change,
  Server, ok, Tx, ◌>>=◌, pure, query, exec, put,
}
use motzworks.Store.Diff.{Existing, no_existing}
use motzworks.Store.Resolve.{
  keys, applies, candidates, matches, row_id, query_id, attempt, scalars, load_existing,
  resolve_device,
}
use motzworks.Store.Upsert.{insert_changes}
use motzworks.Store.Rows.{has_id}

-- os_info after the scan of a device.
abbrev pub os_after : Option OsInfo → Text → (Text → Option OsRow) → Text → Option OsRow
os_after none id table = table
os_after (some os) id table =
    put id
      (some (record {
        family = null_str os.family;
        name = null_str os.name;
        version = null_str os.version;
        build = null_str os.build;
        arch = null_str os.arch;
      }))
      table

-- The database answers every statement, and a query comes by just the devices of the table.
pub record Answers (sv : Server) : Type 0 where
  pub answers : (s : Stmt) → sv.fault s ≡ none
  pub visits : (k : Key) (db : Db) (id : Text) → has_id (sv.visit k db) id ≡ has_id db.device id

module _ (sv : Server) (up : Answers sv) where
  pub query_ok {ℓ} :
      {A : Type ℓ} (s : Stmt) (f : Db → A) (db : Db) → query sv s f db ≡ ok (f db, db)
  unfolding query
  query_ok s f db = rw (up.answers s)

  pub exec_ok : (s : Stmt) (f : Db → Db) (db : Db) → exec sv s f db ≡ ok (tt, f db)
  unfolding exec
  exec_ok s f db = rw (up.answers s)

  pub bind_ok {ℓ κ} :
      {A : Type ℓ} {B : Type κ} (m : Tx A) (f : A → Tx B) (db : Db) {db' : Db} {a : A}
      → m db ≡ ok (a, db')
      → (m >>= f) db ≡ f a db'
  unfolding ◌>>=◌
  bind_ok m f db e = rw (e, ◌>>=◌)

  module _ (d : Device) where
    -- The id that the attempts find.
    unfoldable pub found_id : List Key → Db → Text
    found_id [] db = []
    found_id (k ∷ ks) db =
        let next = found_id ks db in
        let id = row_id (find_first (matches sv k d db) (candidates sv k db)) in
        if applies sv k d then (if is_empty id then next else id) else next

    query_id_ok :
        (k : Key) (db : Db)
        → query_id sv k d db ≡ ok (row_id (find_first (matches sv k d db) (candidates sv k db)), db)
    unfolding query_id
    query_id_ok k db =
        query_ok select_id (λ t. row_id (find_first (matches sv k d t) (candidates sv k t))) db

    attempt_ok : (ks : List Key) (db : Db) → attempt sv ks d db ≡ ok (found_id ks db, db)
    unfolding attempt found_id
    attempt_ok [] db = refl
    attempt_ok (k ∷ ks) db = elim (Bool-cases (applies sv k d)) [
      | inr no_key ↦ rw no_key (attempt_ok ks db)
      | inl key ↦
          let id = row_id (find_first (matches sv k d db) (candidates sv k db)) in
          rw (key, bind_ok (query_id sv k d) _ db (query_id_ok k db))
            (elim (Bool-cases (is_empty id)) [
              | inl missed ↦ rw missed (attempt_ok ks db)
              | inr hit ↦ rw hit
            ])
    ]

    -- The stored scalars that resolveDevice returns.
    abbrev pub snapshot : Text → Db → Existing
    snapshot id db = if is_empty id then no_existing else scalars sv.host id db

    pub resolve_ok :
        (db : Db)
        → resolve_device sv d db ≡ ok ((found_id keys db, snapshot (found_id keys db) db), db)
    unfolding resolve_device load_existing
    resolve_ok db =
        let id = found_id keys db in
        bind_ok (attempt sv keys d) _ db (attempt_ok keys db) ∙ elim (Bool-cases (is_empty id)) [
          | inl fresh ↦ rw fresh (ap (λ i. ok ((i, no_existing), db)) (sym (is_empty-eq id fresh)))
          | inr old ↦ rw old (
              bind_ok (load_existing sv id) _ db (
                bind_ok (query sv select_scalars (λ t. tt)) _ db
                  (query_ok select_scalars (λ t. tt) db)
                ∙ query_ok select_os (scalars sv.host id) db))
        ]

  -- The statement succeeds, and changes neither the devices nor the rows under them.
  pub record Quiet (m : Tx (Unit {0})) : Type 0 where
    pub at :
        (db : Db)
        → (db' : Db) × (m db ≡ ok (tt, db'))
          × (db'.device ≡ db.device)
          × (db'.children ≡ db.children)

  Quiet-pure : Quiet (pure tt)
  Quiet-pure = record { at = λ db. (db, refl, refl, refl) }

  Quiet-exec :
      (s : Stmt) (f : Db → Db)
      → ((db : Db) → (f db).device ≡ db.device)
      → ((db : Db) → (f db).children ≡ db.children)
      → Quiet (exec sv s f)
  Quiet-exec s f g h = record { at = λ db. (f db, exec_ok s f db, g db, h db) }

  Quiet-then : (m n : Tx (Unit {0})) → Quiet m → Quiet n → Quiet (m >>= λ _. n)
  Quiet-then m n q r = record {
    at = λ db.
        let (db1, e, g, h) = q.at db in
        let (db2, e', g', h') = r.at db1 in (db2, bind_ok m (λ _. n) db e ∙ e', g' ∙ g, h' ∙ h);
  }

  module _ (d : Device) where
    pub Quiet-changes :
        (run id : Text) (l : List ChangeEvent) → Quiet (insert_changes sv d run id l)
    unfolding insert_changes
    Quiet-changes run id [] = Quiet-pure
    Quiet-changes run id (c ∷ l) =
        Quiet-then (exec sv insert_change _) (insert_changes sv d run id l)
          (Quiet-exec insert_change _ (λ db. refl) (λ db. refl)) (Quiet-changes run id l)
