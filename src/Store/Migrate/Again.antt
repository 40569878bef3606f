-- ===== src/Store/Migrate/Again.antt =====
-- internal/store/migrate.go: a run that applies what the table does not have, and a second run.
use motzworks.Prelude.{
  ◌≡◌, refl, sym, ap, ◌∙◌, inl, inr, true, false, List, [], ◌∷◌, ◌++◌, map, Option, none, some, All,
  keep, not, Distinct, append-nil, append_assoc, contains, contains-append, contains-snoc,
  Bool-cases, Option-cases, arith,
}
use motzworks.Text.{Text, text_Eq, text_eq_iff}
use motzworks.Store.Migrate.{
  Base, Calls, Applied, Entry, finished, stopped, exec_file, apply, apply_all, migrate, version_of,
  sort, sql_files,
}
use motzworks.Store.Migrate.Recorded.{
  exec_all, apply_all-IsRun, recorded_parts, migrate_refused, migrate_no_dir, migrate_dir,
}

-- The migrations that the table does not have.
unfoldable pub pending : List Text → List Text → List Text
pending versions files = keep (λ f. not (contains versions (version_of f))) files

pending-snoc :
    (v : Text) (versions files : List Text)
    → contains (map version_of files) v ≡ false
    → pending (versions ++ v ∷ []) files ≡ pending versions files
unfolding pending contains
pending-snoc v versions [] h = refl
pending-snoc v versions (f ∷ files) h =
    let rest = pending-snoc v versions files (ground arith) in
    let same : contains (versions ++ v ∷ []) (version_of f) ≡ contains versions (version_of f) =
      ground (
        arith,
        contains-snoc versions v (version_of f),
        text_eq_iff v (version_of f),
        text_eq_iff (version_of f) v,
      ) in
    rw (same, rest) refl

module _ {S : Type 0} (calls : Calls S) where
  -- The query for the version answers, and finds it.
  abbrev IsThere : List Text → Text → Type 0
  IsThere versions f =
      (calls.exists_fails (version_of f) ≡ false) × (contains versions (version_of f) ≡ true)

  apply_all_keeps :
      (files before : List Text) (b : Base S) (v : Text)
      → contains b.versions v ≡ true
      → contains (apply_all calls files before b).1.versions v ≡ true
  apply_all_keeps files before b v h =
      let (done, r) = apply_all-IsRun calls files before b in
      ground (arith, r.in_table, contains-append b.versions (map version_of done) v)

  module _ (f : Text) (files before : List Text) (b : Base S) where
    step_failed :
        calls.exists_fails (version_of f) ≡ true
        → apply_all calls (f ∷ files) before b ≡ (stopped before, b)
    unfolding apply_all
    step_failed e = simp (apply_all, e)

    step_known :
        calls.exists_fails (version_of f) ≡ false
        → contains b.versions (version_of f) ≡ true
        → apply_all calls (f ∷ files) before b ≡ apply_all calls files before b
    unfolding apply_all
    step_known e k = simp (apply_all, e, k)

    step_undone :
        calls.exists_fails (version_of f) ≡ false
        → contains b.versions (version_of f) ≡ false
        → apply calls f b ≡ none
        → apply_all calls (f ∷ files) before b ≡ (stopped before, b)
    unfolding apply_all
    step_undone e k a = simp (apply_all, e, k, a)

    step_done :
        (b' : Base S)
        → calls.exists_fails (version_of f) ≡ false
        → contains b.versions (version_of f) ≡ false
        → apply calls f b ≡ some b'
        → apply_all calls (f ∷ files) before b
          ≡ apply_all calls files (before ++ version_of f ∷ []) b'
    unfolding apply_all
    step_done b' e k a = simp (apply_all, e, k, a)

  recorded_there :
      (f : Text) (b b' : Base S)
      → apply calls f b ≡ some b'
      → contains b'.versions (version_of f) ≡ true
  unfolding apply
  recorded_there f b b' a =
      let (e, v) = recorded_parts calls (version_of f) (exec_file calls f b.schema) b b' a in
      rw v (
        ground (
          arith,
          contains-snoc b.versions (version_of f) (version_of f),
          text_eq_iff (version_of f) (version_of f),
        ))

  stopped_finished : {us vs : List Text} → stopped us ≡ finished vs → ⊥
  stopped_finished h = ground arith

  finished-IsThere :
      (files before : List Text) (b : Base S) (vs : List Text) (o : Applied × Base S)
      → apply_all calls files before b ≡ o
      → o.0 ≡ finished vs
      → All (IsThere o.1.versions) files
  finished-IsThere [] before b vs o m h = tt
  finished-IsThere (f ∷ files) before b vs o m h =
      elim (Bool-cases (calls.exists_fails (version_of f))) [
        | inl e ↦
            absurd (stopped_finished (ap (λ p. p.0) (sym (step_failed f files before b e) ∙ m) ∙ h))
        | inr e ↦ elim (Bool-cases (contains b.versions (version_of f))) [
          | inl k ↦
              let m' = sym (step_known f files before b e k) ∙ m in
              (
                (
                  e,
                  sym (ap (λ p. contains p.1.versions (version_of f)) m')
                      ∙ apply_all_keeps files before b (version_of f) k,
                ),
                finished-IsThere files before b vs o m' h,
              )
          | inr k ↦ elim (Option-cases (apply calls f b)) [
            | inl a ↦ absurd (
                stopped_finished (ap (λ p. p.0) (sym (step_undone f files before b e k a) ∙ m) ∙ h))
            | inr (b', a) ↦
                let m' = sym (step_done f files before b b' e k a) ∙ m in
                let longer = before ++ version_of f ∷ [] in
                (
                  (
                    e,
                    sym (ap (λ p. contains p.1.versions (version_of f)) m')
                        ∙ apply_all_keeps files longer b' (version_of f) (recorded_there f b b' a),
                  ),
                  finished-IsThere files longer b' vs o m' h,
                )
          ]
        ]
      ]

  again :
      (files before : List Text) (b : Base S)
      → All (IsThere b.versions) files
      → apply_all calls files before b ≡ (finished before, b)
  unfolding apply_all
  again [] before b h = refl
  again (f ∷ files) before b ((e, k), hs) = rw (apply_all, e, k) (again files before b hs)

  -- A run that is finished leaves nothing to the next one with the same calls: it applies no
  -- migration and changes nothing.
  pub migrate_again :
      (b : Base S) (vs : List Text)
      → (migrate calls b).0 ≡ finished vs
      → migrate calls (migrate calls b).1 ≡ (finished [], (migrate calls b).1)
  migrate_again b vs h = elim (Bool-cases calls.create_fails) [
    | inl e ↦ absurd (stopped_finished (sym (ap (λ p. p.0) (migrate_refused calls b e)) ∙ h))
    | inr e ↦ elim (Option-cases calls.read_dir) [
      | inl d ↦ absurd (stopped_finished (sym (ap (λ p. p.0) (migrate_no_dir calls b e d)) ∙ h))
      | inr (entries, d) ↦
          let files = sort (sql_files entries) in
          let b' = (migrate calls b).1 in
          migrate_dir calls b' entries e d
          ∙ again files [] b' (
              finished-IsThere files [] b vs (migrate calls b)
                (sym (migrate_dir calls b entries e d)) h)
    ]
  ]

  -- The queries for a version and the inserts succeed.
  pub record IsSound : Type 0 where
    pub answers : (version : Text) → calls.exists_fails version ≡ false
    pub inserts : (version : Text) → calls.insert_fails version ≡ false

  abbrev after : List Text → Base S → S → Base S
  after done b s = record { versions = b.versions ++ map version_of done; schema = s }

  apply_ok :
      IsSound
      → (f : Text) (b : Base S) (s : S) → exec_file calls f b.schema ≡ some s
      → apply calls f b ≡ some (record { versions = b.versions ++ version_of f ∷ []; schema = s })
  unfolding apply
  apply_ok ok f b s e = let i = ok.inserts (version_of f) in simp (e, i)

  abbrev schema_or : S → Option S → S
  schema_or s none = s
  schema_or s (some s') = s'

  all_finished :
      IsSound
      → (files before : List Text) (b : Base S) (s : S) → Distinct (map version_of files)
      → exec_all calls (pending b.versions files) b.schema ≡ some s
      → apply_all calls files before b ≡ (
        finished (before ++ map version_of (pending b.versions files)),
        after (pending b.versions files) b s,
      )
  unfolding exec_all pending apply_all
  all_finished ok [] before b s d h =
      rw (append-nil before, append-nil b.versions)
        (ap (λ x. (finished before, record b { schema = x })) (ap (schema_or s) h))
  all_finished ok (f ∷ files) before b s d h =
      elim (Bool-cases (contains b.versions (version_of f))) [
        | inl k ↦
            step_known f files before b (ok.answers (version_of f)) k
            ∙ (all_finished ok files before b s d.1 (rw k at h) ∙ rw k refl)
        | inr k ↦ elim (Option-cases (exec_file calls f b.schema)) [
          | inl e ↦ let none_left : none ≡ some s = rw (k, e) at h in absurd (ground arith)
          | inr (s1, e) ↦
              let v = version_of f in
              let b1 : Base S = record { versions = b.versions ++ v ∷ []; schema = s1 } in
              let same = pending-snoc v b.versions files d.0 in
              let left : exec_all calls (pending b.versions files) s1 ≡ some s = rw (k, e) at h in
              step_done f files before b b1 (ok.answers v) k (apply_ok ok f b s1 e)
              ∙ (all_finished ok files (before ++ v ∷ []) b1 s d.1 (rw same left)
                  ∙ rw (same, k)
                      (rw
                        (
                          append_assoc before (v ∷ []) (map version_of (pending b.versions files)),
                          append_assoc b.versions (v ∷ [])
                              (map version_of (pending b.versions files)),
                        )
                        refl))
        ]
      ]

  -- If the table can be made, the directory be read, the queries for versions and the inserts
  -- succeed, no two migrations have one version, and the texts of those that the table does not
  -- have execute one after another from the schema that there is, then the run is finished: it
  -- returns just the versions of these, in the order of the names, the table has them after those
  -- it had, and the schema is what these texts leave.
  pub migrate_finished :
      (b : Base S) (entries : List Entry) (s : S)
      → calls.create_fails ≡ false
      → calls.read_dir ≡ some entries
      → IsSound
      → Distinct (map version_of (sort (sql_files entries)))
      → exec_all calls (pending b.versions (sort (sql_files entries))) b.schema ≡ some s
      → let missing = pending b.versions (sort (sql_files entries)) in
        migrate calls b ≡ (
          finished (map version_of missing),
          record { versions = b.versions ++ map version_of missing; schema = s },
        )
  migrate_finished b entries s e d ok distinct h =
      migrate_dir calls b entries e d ∙ all_finished ok (sort (sql_files entries)) [] b s distinct h
