-- ===== src/Store/Stored.antt =====
-- What UpsertDevice leaves in the tables of internal/store/devices.go while the database answers
-- every statement.
use mathlib.Core.Path.{fun_ext}
use motzworks.Prelude.{
  ◌≡◌, refl, ap, ◌∙◌, List, [], ◌∷◌, ◌++◌, map, append_assoc, append-nil, Option, none, some,
  Bool-cases, inl, inr,
}
use motzworks.Text.{Text, text_eq, text_eq_iff}
use motzworks.Model.{Device, Hardware, OsInfo}
use motzworks.Store.Db.{
  null_str, null_int, HardwareRow, Children, Db, Stmt, delete_children, insert_interface, upsert_os,
  upsert_hardware, insert_software, insert_user, Server, ok, Tx, ◌>>=◌, exec, put,
}
use motzworks.Store.Upsert.{
  on_children, delete_rows, interface_row, software_row, user_row, insert_interfaces,
  insert_softwares, insert_users, write_os, write_hardware, replace_children,
}
use motzworks.Store.Runs.{Answers, exec_ok, bind_ok, os_after}

pub put_self {ℓ} : {A : Type ℓ} (id : Text) (a : A) (t : Text → A) → put id a t id ≡ a
unfolding put
put_self id a t = rw ((text_eq_iff id id).1 refl)

put-put {ℓ} : {A : Type ℓ} (id : Text) (a b : A) (t : Text → A) → put id b (put id a t) ≡ put id b t
unfolding put
put-put id a b t = fun_ext λ k. elim (Bool-cases (text_eq id k)) [ inl e ↦ rw e | inr e ↦ rw e ]

-- hardware after the scan of a device.
abbrev pub hardware_after :
    Option Hardware → Text → (Text → Option HardwareRow) → Text → Option HardwareRow
hardware_after none id table = table
hardware_after (some h) id table =
    put id
      (some (record {
        vendor = null_str h.vendor;
        model = null_str h.model;
        serial = null_str h.serial;
        cpu = null_str h.cpu;
        cpu_cores = null_int h.cpu_cores;
        ram_bytes = null_int h.ram_bytes;
      }))
      table

module _ (sv : Server) (d : Device) where
  -- The rows under the device after its scan.
  abbrev pub children_after : Text → Children → Children
  children_after id c = record {
    interfaces = put id (map (interface_row sv d) d.interfaces) c.interfaces;
    os_info = os_after d.os id c.os_info;
    hardware = hardware_after d.hardware id c.hardware;
    software = put id (map (software_row sv d) d.software) c.software;
    user_account = put id (map (user_row sv d) d.users) c.user_account;
  }

-- A loop that appends a row to one cell of a table for each of its elements.
module _ (sv : Server) (up : Answers sv) {X : Type 0} {R : Type 0} (row : X → R) (id : Text)
    (s : Stmt) (f : X → Db → Db) (at : (Text → List R) → Db) (loop : List X → Tx (Unit {0})) where
  loop_stored :
      ((db : Db) → loop [] db ≡ ok (tt, db))
      → ((x : X) (l : List X) (db : Db) → loop (x ∷ l) db ≡ (exec sv s (f x) >>= λ _. loop l) db)
      → ((x : X) (t : Text → List R) → f x (at t) ≡ at (put id (t id ++ row x ∷ []) t))
      → (l : List X) (rows : List R) (t : Text → List R)
      → loop l (at (put id rows t)) ≡ ok (tt, at (put id (rows ++ map row l) t))
  loop_stored nil cons step [] rows t = rw (append-nil rows) (nil _)
  loop_stored nil cons step (x ∷ l) rows t =
      let next : f x (at (put id rows t)) ≡ at (put id (rows ++ row x ∷ []) t) =
        step x (put id rows t)
        ∙ ap at (
            ap (λ r. put id (r ++ row x ∷ []) (put id rows t)) (put_self id rows t)
            ∙ put-put id rows (rows ++ row x ∷ []) t) in
      cons x l _
      ∙ (bind_ok sv up (exec sv s (f x)) (λ _. loop l) _ (exec_ok sv up s (f x) _)
          ∙ (ap (loop l) next
              ∙ (loop_stored nil cons step l (rows ++ row x ∷ []) t
                  ∙ ap (λ r. ok (tt, at (put id r t)))
                      (append_assoc rows (row x ∷ []) (map row l)))))

module _ (sv : Server) (up : Answers sv) (d : Device) (id : Text) where
  interfaces_stored :
      (c : Children) (db : Db)
      → insert_interfaces sv d id d.interfaces
          (record db { children = record c { interfaces = put id [] c.interfaces } })
        ≡ ok (
          tt,
          record db {
            children = record c {
              interfaces = put id (map (interface_row sv d) d.interfaces) c.interfaces;
            };
          },
        )
  unfolding insert_interfaces
  interfaces_stored c db =
      loop_stored sv up (interface_row sv d) id insert_interface _
        (λ t. record db { children = record c { interfaces = t } }) (insert_interfaces sv d id)
        (λ _. refl) (λ x l _. refl) (λ x t. refl) d.interfaces [] c.interfaces

  softwares_stored :
      (c : Children) (db : Db)
      → insert_softwares sv d id d.software
          (record db { children = record c { software = put id [] c.software } })
        ≡ ok (
          tt,
          record db {
            children = record c {
              software = put id (map (software_row sv d) d.software) c.software;
            };
          },
        )
  unfolding insert_softwares
  softwares_stored c db =
      loop_stored sv up (software_row sv d) id insert_software _
        (λ t. record db { children = record c { software = t } }) (insert_softwares sv d id)
        (λ _. refl) (λ x l _. refl) (λ x t. refl) d.software [] c.software

  users_stored :
      (c : Children) (db : Db)
      → insert_users sv d id d.users
          (record db { children = record c { user_account = put id [] c.user_account } })
        ≡ ok (
          tt,
          record db {
            children = record c {
              user_account = put id (map (user_row sv d) d.users) c.user_account;
            };
          },
        )
  unfolding insert_users
  users_stored c db =
      loop_stored sv up (user_row sv d) id insert_user _
        (λ t. record db { children = record c { user_account = t } }) (insert_users sv d id)
        (λ _. refl) (λ x l _. refl) (λ x t. refl) d.users [] c.user_account

  os_stored :
      (os : Option OsInfo) (db : Db)
      → write_os sv d id os db
        ≡ ok (tt, on_children (λ c. record c { os_info = os_after os id c.os_info }) db)
  unfolding write_os
  os_stored none db = refl
  os_stored (some os) db = exec_ok sv up upsert_os _ db

  hardware_stored :
      (h : Option Hardware) (db : Db)
      → write_hardware sv d id h db
        ≡ ok (tt, on_children (λ c. record c { hardware = hardware_after h id c.hardware }) db)
  unfolding write_hardware
  hardware_stored none db = refl
  hardware_stored (some h) db = exec_ok sv up upsert_hardware _ db

  pub children_stored :
      (db : Db)
      → replace_children sv d id db
        ≡ ok (tt, record db { children = children_after sv d id db.children })
  unfolding replace_children delete_rows
  children_stored db =
      let c0 = delete_rows sv d id db.children in
      let c1 = record c0 { interfaces = (children_after sv d id db.children).interfaces } in
      let c2 = record c1 { os_info = os_after d.os id c1.os_info } in
      let c3 = record c2 { hardware = hardware_after d.hardware id c2.hardware } in
      let c4 = record c3 { software = (children_after sv d id db.children).software } in
      let at : Children → Db = λ c. record db { children = c } in
      bind_ok sv up (exec sv delete_children (on_children (delete_rows sv d id))) _ db
        (exec_ok sv up delete_children _ db)
      ∙ (bind_ok sv up (insert_interfaces sv d id d.interfaces) _ (at c0)
            (interfaces_stored (record c0 { interfaces = db.children.interfaces }) db)
          ∙ (bind_ok sv up (write_os sv d id d.os) _ (at c1) (os_stored d.os (at c1))
              ∙ (bind_ok sv up (write_hardware sv d id d.hardware) _ (at c2)
                    (hardware_stored d.hardware (at c2))
                  ∙ (bind_ok sv up (insert_softwares sv d id d.software) _ (at c3)
                        (softwares_stored (record c3 { software = db.children.software }) db)
                      ∙ users_stored (record c4 { user_account = db.children.user_account }) db))))
