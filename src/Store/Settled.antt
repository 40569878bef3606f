-- ===== src/Store/Settled.antt =====
-- One whole call of UpsertDevice while the database answers every statement.
use motzworks.Prelude.{◌≡◌, refl, ap, ◌∙◌, true, false, List, [], ◌∷◌, ◌++◌, none, find_first}
use motzworks.Text.{Text, is_empty, text_eq}
use motzworks.Model.{Device}
use motzworks.Store.Db.{
  DeviceRow, ChangeEvent, Db, begin, insert_device, update_device, commit, Server, ok, Tx,
  transaction, query, exec,
}
use motzworks.Store.Diff.{Existing, diff_device}
use motzworks.Store.Resolve.{keys, resolve_device}
use motzworks.Store.Upsert.{
  new_row, update_where, write_device, replace_children, insert_changes, upsert_tx, upsert_device,
}
use motzworks.Store.Runs.{
  Answers, query_ok, exec_ok, bind_ok, found_id, snapshot, resolve_ok, Quiet, Quiet-changes,
}
use motzworks.Store.Stored.{children_after, children_stored}

-- The ids that the database makes up are new and not empty.
pub record NewIds (sv : Server) : Type 0 where
  pub nonempty : (db : Db) → is_empty (sv.new_id db) ≡ false
  pub unused : (db : Db) → find_first (λ r. text_eq r.id (sv.new_id db)) db.device ≡ none

-- The id and the devices after an upsert that found `found`.
module _ (sv : Server) (d : Device) where
  abbrev pub settled_id : Text → Db → Text
  settled_id [] db = sv.new_id db
  settled_id (c ∷ id) db = c ∷ id

  abbrev pub settled_rows : Text → Db → List DeviceRow
  settled_rows [] db = db.device ++ new_row sv d (sv.new_id db) ∷ []
  settled_rows (c ∷ id) db = update_where sv d (c ∷ id) db.device

  abbrev pub settled_changes : Text → Existing → List ChangeEvent
  settled_changes [] ex = []
  settled_changes (c ∷ id) ex = diff_device sv ex d

transaction_ok {ℓ} :
    {A : Type ℓ} (m : Tx A) {db db' : Db} {a : A}
    → m db ≡ ok (a, db')
    → transaction m db ≡ (ok a, db')
unfolding transaction
transaction_ok m e = rw (e, transaction)

module _ (sv : Server) (up : Answers sv) (d : Device) where
  write_device_ok :
      (found : Text) (ex : Existing) (db : Db)
      → (db' : Db) × (write_device sv d found ex db
          ≡ ok ((settled_id sv d found db, settled_changes sv d found ex), db'))
        × (db'.device ≡ settled_rows sv d found db)
        × (db'.children ≡ db.children)
  unfolding write_device
  write_device_ok [] ex db = (
    _,
    bind_ok sv up (query sv insert_device sv.new_id) _ db
          (query_ok sv up insert_device sv.new_id db)
        ∙ bind_ok sv up (exec sv insert_device _) _ db (exec_ok sv up insert_device _ db),
    refl,
    refl,
  )
  write_device_ok (c ∷ id) ex db = (
    _,
    bind_ok sv up (exec sv update_device _) _ db (exec_ok sv up update_device _ db),
    refl,
    refl,
  )

  -- One call: the id, the changes, and the devices and their rows that it leaves.
  pub upsert_ok :
      (run : Text) (db : Db)
      → (db' : Db) × (let found = found_id sv up d keys db in
          (upsert_device sv d run true db ≡ (
            ok (settled_id sv d found db, settled_changes sv d found (snapshot sv up d found db)),
            db',
          ))
          × (db'.device ≡ settled_rows sv d found db)
          × (db'.children ≡ children_after sv d (settled_id sv d found db) db.children))
  unfolding upsert_device upsert_tx transaction
  upsert_ok run db =
      let found = found_id sv up d keys db in
      let ex = snapshot sv up d found db in
      let (db1, e1, g1, h1) = write_device_ok found ex db in
      let id = settled_id sv d found db in
      let db2 = record db1 { children = children_after sv d id db1.children } in
      let changes = settled_changes sv d found ex in
      let (db3, e3, g3, h3) = Quiet.at (Quiet-changes sv up d run id changes) db2 in
      (
        db3,
        (
          transaction_ok (upsert_tx sv d run true) (
              bind_ok sv up (query sv begin (λ t. tt)) _ db (query_ok sv up begin (λ t. tt) db)
              ∙ (bind_ok sv up (resolve_device sv d) _ db (resolve_ok sv up d db)
                  ∙ (bind_ok sv up (write_device sv d found ex) _ db e1
                      ∙ (bind_ok sv up (replace_children sv d id) _ db1
                            (children_stored sv up d id db1)
                          ∙ (bind_ok sv up (insert_changes sv d run id changes) _ db2 e3
                              ∙ bind_ok sv up (exec sv commit (λ t. t)) _ db3
                                  (exec_ok sv up commit (λ t. t) db3)))))),
          g3 ∙ g1,
          h3 ∙ ap (children_after sv d id) h1,
        ),
      )
