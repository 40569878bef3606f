-- ===== src/Store/Migrate.antt =====
-- internal/store/migrate.go. The embedded directory, and what the database does with the text of a
-- migration, are parameters; the schema is whatever the migrations change.
pub mod Recorded
pub mod Again
use motzworks.Prelude.{
  ℕ, Bool, true, false, ◌&&◌, ◌||◌, not, List, [], ◌∷◌, ◌++◌, Option, none, some, reverse, ltb,
  nat_eq, contains, if◌then◌else◌,
}
use motzworks.Text.{Text, text_Eq, lit, has_prefix}

-- s < t for Go's strings, by code points.
unfoldable pub text_ltb : Text → Text → Bool
text_ltb [] [] = false
text_ltb [] (d ∷ t) = true
text_ltb (c ∷ s) [] = false
text_ltb (c ∷ s) (d ∷ t) = ltb c d || nat_eq c d && text_ltb s t

-- sort.Strings
unfoldable pub insert : Text → List Text → List Text
insert s [] = s ∷ []
insert s (t ∷ ts) = let rest = insert s ts in if text_ltb t s then t ∷ rest else s ∷ t ∷ ts

unfoldable pub sort : List Text → List Text
sort [] = []
sort (t ∷ ts) = insert t (sort ts)

-- strings.HasSuffix and strings.TrimSuffix
unfoldable pub has_suffix : Text → Text → Bool
has_suffix s t = has_prefix (reverse s) (reverse t)

abbrev pub drop_front : Text → Text → Text
drop_front [] s = s
drop_front (d ∷ t) [] = []
drop_front (d ∷ t) (c ∷ s) = drop_front t s

unfoldable pub version_of : Text → Text
unfolding lit
version_of f =
    if has_suffix f (lit ".sql") then reverse (drop_front (lit ".sql") (reverse f)) else f

pub record Entry : Type 0 where
  pub name : Text
  pub is_dir : Bool

-- The names of the migrations, before the sort.
unfoldable pub sql_files : List Entry → List Text
unfolding lit
sql_files [] = []
sql_files (e ∷ es) =
    let rest = sql_files es in
    if not e.is_dir && has_suffix e.name (lit ".sql") then e.name ∷ rest else rest

-- The table schema_migrations, and the rest of the database.
pub record Base (S : Type 0) : Type 0 where
  pub versions : List Text
  pub schema : S

-- Which calls fail, and what the text of a migration does.
pub record Calls (S : Type 0) : Type 0 where
  pub create_fails : Bool
  pub read_dir : Option (List Entry)
  pub exists_fails : Text → Bool
  pub read_file : Text → Option Text
  pub exec : Text → S → Option S
  pub insert_fails : Text → Bool

-- The versions that were applied, with or without an error.
pub data Applied : Type 0 where
  finished stopped : List Text → Applied

module _ {S : Type 0} (calls : Calls S) where
  abbrev pub and_exec : Option Text → S → Option S
  and_exec none s = none
  and_exec (some sql) s = calls.exec sql s

  -- ReadFile and the first statement of the transaction.
  unfoldable pub exec_file : Text → S → Option S
  exec_file f s = and_exec (calls.read_file f) s

  abbrev pub recorded : Text → Option S → Base S → Option (Base S)
  recorded version none b = none
  recorded version (some schema) b =
      if calls.insert_fails version
      then none
      else some (record { versions = b.versions ++ version ∷ []; schema = schema })

  -- One migration: its transaction, or `none` with the database as it was.
  unfoldable pub apply : Text → Base S → Option (Base S)
  apply f b = recorded (version_of f) (exec_file f b.schema) b

  -- The loop over the files.
  unfoldable pub apply_all : List Text → List Text → Base S → Applied × Base S
  apply_all [] applied b = (finished applied, b)
  apply_all (f ∷ files) applied b = elim (calls.exists_fails (version_of f)) [
    | true ↦ (stopped applied, b)
    | false ↦ elim (contains b.versions (version_of f)) [
      | true ↦ apply_all files applied b
      | false ↦ elim (apply f b) [
        | none ↦ (stopped applied, b)
        | some b' ↦ apply_all files (applied ++ version_of f ∷ []) b'
      ]
    ]
  ]

  abbrev pub apply_dir : Option (List Entry) → Base S → Applied × Base S
  apply_dir none b = (stopped [], b)
  apply_dir (some entries) b = apply_all (sort (sql_files entries)) [] b

  -- Migrate
  unfoldable pub migrate : Base S → Applied × Base S
  migrate b = if calls.create_fails then (stopped [], b) else apply_dir calls.read_dir b
