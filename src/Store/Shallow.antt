-- ===== src/Store/Shallow.antt =====
-- UpsertDevice of a device that no collector reached: the inventory of earlier scans stays.
use motzworks.Prelude.{
  ◌≡◌, refl, ◌∙◌, Bool, true, false, List, [], ◌∷◌, Option, none, some, if◌then◌else◌,
}
use motzworks.Text.{Text, is_empty}
use motzworks.Model.{Device}
use motzworks.Store.Db.{
  Key, ChangeEvent, Db, Stmt, begin, select_id, select_scalars, select_os, insert_device,
  update_device, insert_change, commit, or_fault, continue, end_with, Server, Answer, ok, err, Tx,
  ◌>>=◌, pure, transaction, query, exec,
}
use motzworks.Store.Diff.{Existing}
use motzworks.Store.Resolve.{
  keys, applies, attempt, query_id, load_existing, resolve_device, scalars,
}
use motzworks.Store.Upsert.{write_device, insert_changes, upsert_tx, upsert_device}

abbrev Kept {ℓ} : {A : Type ℓ} → Answer (A × Db) → Db → Type 0
Kept (ok (a, db')) db = db'.children ≡ db.children
Kept (err e) db = Unit

-- A step that leaves the child tables alone.
record Spares {ℓ} {A : Type ℓ} (m : Tx A) : Type ℓ where
  at : (db : Db) → Kept (m db) db

Kept-or_fault {ℓ} :
    {A : Type ℓ} (o : Option Text) (a : A) (db' db : Db)
    → db'.children ≡ db.children
    → Kept (or_fault o a db') db
Kept-or_fault none a db' db h = h
Kept-or_fault (some e) a db' db h = tt

Kept-trans {ℓ} :
    {A : Type ℓ} (r : Answer (A × Db)) (db' db : Db)
    → db'.children ≡ db.children
    → Kept r db'
    → Kept r db
Kept-trans (ok (a, db2)) db' db h k = k ∙ h
Kept-trans (err e) db' db h k = tt

Kept-continue :
    {A B : Type 0} (r : Answer (A × Db)) (f : A → Tx B) (db : Db)
    → Kept r db
    → ((a : A) → Spares (f a))
    → Kept (continue r f) db
Kept-continue (ok (a, db')) f db k q = Kept-trans (f a db') db' db k (Spares.at (q a) db')
Kept-continue (err e) f db k q = tt

module _ {A : Type 0} where
  Spares-pure : (a : A) → Spares (pure a)
  Spares-pure a = record { at = λ db. refl }

  Spares-query : (sv : Server) (s : Stmt) (f : Db → A) → Spares (query sv s f)
  unfolding query
  Spares-query sv s f = record { at = λ db. Kept-or_fault (sv.fault s) (f db) db db refl }

  Spares-if : (b : Bool) (m n : Tx A) → Spares m → Spares n → Spares (if b then m else n)
  Spares-if true m n q r = q
  Spares-if false m n q r = r

  children-transaction :
      (m : Tx A) (db : Db) → Spares m → (transaction m db).1.children ≡ db.children
  unfolding transaction
  children-transaction m db q = kept_end (m db) db (q.at db)
    where
      kept_end : (r : Answer (A × Db)) (t : Db) → Kept r t → (end_with r t).1.children ≡ t.children
      kept_end (ok (a, t')) t k = k
      kept_end (err e) t k = refl

Spares-exec :
    (sv : Server) (s : Stmt) (f : Db → Db)
    → ((db : Db) → (f db).children ≡ db.children)
    → Spares (exec sv s f)
unfolding exec
Spares-exec sv s f h = record { at = λ db. Kept-or_fault (sv.fault s) tt (f db) db (h db) }

Spares-bind :
    {A B : Type 0} (m : Tx A) (f : A → Tx B)
    → Spares m
    → ((a : A) → Spares (f a))
    → Spares (m >>= f)
unfolding ◌>>=◌
Spares-bind m f q r = record { at = λ db. Kept-continue (m db) f db (q.at db) r }

module _ (sv : Server) (d : Device) where
  Spares-attempt : (ks : List Key) → Spares (attempt sv ks d)
  unfolding attempt query_id
  Spares-attempt [] = Spares-pure []
  Spares-attempt (k ∷ ks) =
      Spares-if (applies sv k d) _ _
        (Spares-bind (query_id sv k d) _ (Spares-query sv select_id _)
          (λ id. Spares-if (is_empty id) _ _ (Spares-attempt ks) (Spares-pure id)))
        (Spares-attempt ks)

  Spares-resolve : Spares (resolve_device sv d)
  unfolding resolve_device load_existing
  Spares-resolve = Spares-bind (attempt sv keys d) _ (Spares-attempt keys) (λ id.
      Spares-if (is_empty id) _ _ (Spares-pure _) (
        Spares-bind (load_existing sv id) _
          (Spares-bind (query sv select_scalars (λ t. tt)) _ (Spares-query sv select_scalars _)
            (λ _. Spares-query sv select_os (scalars sv.host id)))
          (λ ex. Spares-pure _)))

  Spares-write : (id : Text) (ex : Existing) → Spares (write_device sv d id ex)
  unfolding write_device
  Spares-write [] ex =
      Spares-bind (query sv insert_device sv.new_id) _ (Spares-query sv insert_device sv.new_id)
        (λ id.
          Spares-bind (exec sv insert_device _) _ (Spares-exec sv insert_device _ (λ t. refl))
            (λ _. Spares-pure _))
  Spares-write (c ∷ id) ex =
      Spares-bind (exec sv update_device _) _ (Spares-exec sv update_device _ (λ t. refl))
        (λ _. Spares-pure _)

  Spares-changes : (run id : Text) (l : List ChangeEvent) → Spares (insert_changes sv d run id l)
  unfolding insert_changes
  Spares-changes run id [] = Spares-pure tt
  Spares-changes run id (c ∷ l) =
      Spares-bind (exec sv insert_change _) _ (Spares-exec sv insert_change _ (λ t. refl))
        (λ _. Spares-changes run id l)

  -- A call of UpsertDevice with collected = false, whether it commits or fails at any statement,
  -- leaves the interfaces, systems, hardware, software and users of every device as they were.
  pub upsert_device-shallow :
      (run : Text) (db : Db) → (upsert_device sv d run false db).1.children ≡ db.children
  unfolding upsert_device upsert_tx
  upsert_device-shallow run db = children-transaction (upsert_tx sv d run false) db (
      Spares-bind (query sv begin (λ t. tt)) _ (Spares-query sv begin _) (λ _.
        Spares-bind (resolve_device sv d) _ Spares-resolve (λ r.
          Spares-bind (write_device sv d r.0 r.1) _ (Spares-write r.0 r.1) (λ w.
            Spares-bind (pure tt) _ (Spares-pure tt) (λ _.
              Spares-bind (insert_changes sv d run w.0 w.1) _ (Spares-changes run w.0 w.1) (λ _.
                Spares-bind (exec sv commit (λ t. t)) _ (Spares-exec sv commit _ (λ t. refl))
                  (λ _. Spares-pure w)))))))
