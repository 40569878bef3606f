-- ===== src/Store/Relations.antt =====
-- What CreateRelationship leaves in the table of relationships.
use motzworks.Prelude.{
  ◌≡◌, refl, Bool, true, false, ◌&&◌, ◌||◌, not, List, [], ◌∷◌, ◌++◌, Option, none, some, arith,
  Bool-cases, Option-cases, inl, inr,
}
use motzworks.Text.{Text, is_empty, text_eq, text_eq_iff}
use motzworks.Store.Db.{Db, Server, insert_relationship, transaction, exec}
use motzworks.Store.Upsert.{relation_known, create_relationship}

relation_known-snoc :
    (p c k : Text) (rows : List (Text × Text × Text))
    → relation_known p c k (rows ++ (p, c, k) ∷ []) ≡ true
unfolding relation_known
relation_known-snoc p c k [] =
    rw ((text_eq_iff p p).1 refl, (text_eq_iff c c).1 refl, (text_eq_iff k k).1 refl) refl
relation_known-snoc p c k (r ∷ rows) = rw (relation_known-snoc p c k rows) (ground arith)

abbrev pub answered : Option Text → Bool
answered none = true
answered (some e) = false

module _ (sv : Server) (p c k : Text) where
  -- Linking two devices again changes nothing, no call touches a device, and after a call the link
  -- is there exactly if it was there before, or both ids are named and different and the database
  -- answered.
  pub create_relationship-again :
      (db : Db)
      → let once = (create_relationship sv p c k db).1 in
        ((create_relationship sv p c k once).1 ≡ once)
        × (once.device ≡ db.device)
        × (relation_known p c k once.relationship ≡ (
            relation_known p c k db.relationship
            || (not (is_empty p || is_empty c || text_eq p c)
                && answered (sv.fault insert_relationship))))
  unfolding create_relationship transaction exec
  create_relationship-again db = elim (Bool-cases (is_empty p || is_empty c || text_eq p c)) [
    | inl skip ↦ rw skip (refl, refl, ground arith)
    | inr go ↦ elim (Option-cases (sv.fault insert_relationship)) [
      | inr (e, fails) ↦ rw (go, fails) (refl, refl, ground arith)
      | inl fine ↦ elim (Bool-cases (relation_known p c k db.relationship)) [
        | inl old ↦ rw (go, fine, old, old) (refl, refl, refl)
        | inr new ↦ rw (go, fine, new, relation_known-snoc p c k db.relationship) (refl, refl, refl)
      ]
    ]
  ]
