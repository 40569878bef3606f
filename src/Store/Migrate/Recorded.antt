-- ===== src/Store/Migrate/Recorded.antt =====
-- internal/store/migrate.go: what a run of the migrations leaves, however it ends, and what a second
-- run does.
use motzworks.Prelude.{
  ◌≡◌, refl, sym, ap, ◌∙◌, inl, inr, true, false, List, [], ◌∷◌, ◌++◌, map, append_assoc,
  append-nil, Option, none, some, All, contains, contains-snoc, Bool-cases, Option-cases, arith,
}
use motzworks.Text.{Text, text_Eq}
use motzworks.Store.Migrate.{
  Base, Calls, Applied, Entry, finished, stopped, exec_file, recorded, apply, apply_all, migrate,
  version_of, sort, sql_files,
}

-- The versions of an outcome.
abbrev pub versions_of : Applied → List Text
versions_of (finished vs) = vs
versions_of (stopped vs) = vs

module _ {S : Type 0} (calls : Calls S) where
  abbrev then_exec : Option S → (S → Option S) → Option S
  then_exec none f = none
  then_exec (some s) f = f s

  -- The schema after the texts of these files, one after the other.
  unfoldable pub exec_all : List Text → S → Option S
  exec_all [] s = some s
  exec_all (f ∷ files) s = then_exec (exec_file calls f s) (exec_all files)

  -- The run applied these files: their versions are what it returns and what it adds to the table,
  -- and the schema is what their texts make of it.
  pub record IsRun (b : Base S) (o : Applied × Base S) (before done : List Text) : Type 0 where
    pub returned : versions_of o.0 ≡ before ++ map version_of done
    pub in_table : o.1.versions ≡ b.versions ++ map version_of done
    pub executed : exec_all done b.schema ≡ some o.1.schema
    pub fresh : All (λ f. contains b.versions (version_of f) ≡ false) done

  abbrev base_or : Base S → Option (Base S) → Base S
  base_or b none = b
  base_or b (some b') = b'

  pub recorded_parts :
      (version : Text) (o : Option S) (b b' : Base S)
      → recorded calls version o b ≡ some b'
      → (o ≡ some b'.schema) × (b'.versions ≡ b.versions ++ version ∷ [])
  recorded_parts version none b b' h = absurd (ground arith)
  recorded_parts version (some s) b b' h = elim (Bool-cases (calls.insert_fails version)) [
    | inl e ↦ absurd (ground arith)
    | inr e ↦
        let same = ap (base_or b) (rw e at h) in
        (ap (λ c. some c.schema) same, sym (ap (λ c. c.versions) same))
  ]

  nothing_done :
      (before : List Text) (b : Base S)
      → (done : List Text) × IsRun b (stopped before, b) before done
  unfolding exec_all
  nothing_done before b = (
    [],
    record {
      returned = sym (append-nil before);
      in_table = sym (append-nil b.versions);
      executed = refl;
      fresh = tt;
    },
  )

  -- What is not in the longer table was not in the shorter one.
  earlier_fresh :
      (version : Text) (b b' : Base S)
      → b'.versions ≡ b.versions ++ version ∷ []
      → (done : List Text) → All (λ f. contains b'.versions (version_of f) ≡ false) done
      → All (λ f. contains b.versions (version_of f) ≡ false) done
  earlier_fresh version b b' v [] h = tt
  earlier_fresh version b b' v (f ∷ done) (h, hs) = (
    ground (arith, contains-snoc b.versions version (version_of f), v),
    earlier_fresh version b b' v done hs,
  )

  one_done :
      (f : Text) (before : List Text) (b b' : Base S) {o : Applied × Base S}
      → contains b.versions (version_of f) ≡ false
      → apply calls f b ≡ some b'
      → (done : List Text) × IsRun b' o (before ++ version_of f ∷ []) done
      → (done : List Text) × IsRun b o before done
  unfolding apply exec_all
  one_done f before b b' k a (done, r) =
      let (e, v) = recorded_parts (version_of f) (exec_file calls f b.schema) b b' a in
      (
        f ∷ done,
        record {
          returned = r.returned ∙ append_assoc before (version_of f ∷ []) (map version_of done);
          in_table =
              r.in_table
              ∙ ap (λ l. l ++ map version_of done) v
              ∙ append_assoc b.versions (version_of f ∷ []) (map version_of done);
          executed = rw e r.executed;
          fresh = (k, earlier_fresh (version_of f) b b' v done r.fresh);
        },
      )

  pub apply_all-IsRun :
      (files before : List Text) (b : Base S)
      → (done : List Text) × IsRun b (apply_all calls files before b) before done
  unfolding apply_all exec_all
  apply_all-IsRun [] before b = (
    [],
    record {
      returned = sym (append-nil before);
      in_table = sym (append-nil b.versions);
      executed = refl;
      fresh = tt;
    },
  )
  apply_all-IsRun (f ∷ files) before b = elim (Bool-cases (calls.exists_fails (version_of f))) [
    | inl e ↦ rw (apply_all, e) (nothing_done before b)
    | inr e ↦ elim (Bool-cases (contains b.versions (version_of f))) [
      | inl k ↦ rw (apply_all, e, k) (apply_all-IsRun files before b)
      | inr k ↦ elim (Option-cases (apply calls f b)) [
        | inl a ↦ rw (apply_all, e, k, a) (nothing_done before b)
        | inr (b', a) ↦
            rw (apply_all, e, k, a)
              (one_done f before b b' k a (apply_all-IsRun files (before ++ version_of f ∷ []) b'))
      ]
    ]
  ]

  pub migrate_refused : (b : Base S) → calls.create_fails ≡ true → migrate calls b ≡ (stopped [], b)
  unfolding migrate
  migrate_refused b e = simp e

  pub migrate_no_dir :
      (b : Base S)
      → calls.create_fails ≡ false
      → calls.read_dir ≡ none
      → migrate calls b ≡ (stopped [], b)
  unfolding migrate
  migrate_no_dir b e d = simp (e, d)

  pub migrate_dir :
      (b : Base S) (entries : List Entry)
      → calls.create_fails ≡ false
      → calls.read_dir ≡ some entries
      → migrate calls b ≡ apply_all calls (sort (sql_files entries)) [] b
  unfolding migrate
  migrate_dir b entries e d = simp (e, d)

  -- However a run of the migrations ends, the versions that it returns are those it added to the
  -- table, in this order; none of them was there before; and the schema is what the texts of just
  -- these files, in this order, make of the one before: a migration that fails leaves nothing.
  pub migrate-IsRun : (b : Base S) → (done : List Text) × IsRun b (migrate calls b) [] done
  migrate-IsRun b = elim (Bool-cases calls.create_fails) [
    | inl e ↦ rw (migrate_refused b e) (nothing_done [] b)
    | inr e ↦ elim (Option-cases calls.read_dir) [
      | inl d ↦ rw (migrate_no_dir b e d) (nothing_done [] b)
      | inr (entries, d) ↦
          rw (migrate_dir b entries e d) (apply_all-IsRun (sort (sql_files entries)) [] b)
    ]
  ]
