-- ===== src/Store/Queries.antt =====
-- internal/store/queries.go: what the dashboard reads. A query is its text, with one blank for each
-- run of white space, and its arguments; how the database answers it is the record Database.
pub mod Devices
pub mod Lists
pub mod Shape
pub mod Detail
pub mod Tables
pub mod Shown
pub mod Readback
pub mod Stats
use motzworks.Prelude.{
  ℕ, suc, ◌≤◌, ◌<◌, ◌≡◌, refl, Bool, true, false, ◌&&◌, List, [], ◌∷◌, ◌++◌, Option, none, some,
  length, length-append, arith, if◌then◌else◌,
}
use motzworks.Prelude.Int.{ℤ, pos}
use motzworks.Text.{Text, lit, trim_space, is_empty, join}
use motzworks.Text.Number.{decimal}
use motzworks.Store.Accounts.{page_limit}

pub record DeviceListItem : Type 0 where
  pub id : Text
  pub type : Text
  pub hostname : Text
  pub primary_ip : Text
  pub os_name : Text
  pub source : Text
  pub last_seen : ℤ

pub record DeviceFilter : Type 0 where
  pub query : Text
  pub type : Text
  pub limit : ℤ
  pub offset : ℤ

-- An argument of a query.
pub data Arg : Type 0 where
  text : Text → Arg
  number : ℤ → Arg

pub record Query : Type 0 where
  pub sql : Text
  pub args : List Arg

-- argBuilder.next: the placeholder and the longer arguments.
unfoldable pub next : Arg → List Arg → Text × List Arg
unfolding lit
next v args = (lit "$" ++ decimal (suc (length args)), args ++ v ∷ [])

-- "%" + q + "%"
unfoldable pub like : Text → Arg
unfolding lit
like q = text (lit "%" ++ (q ++ lit "%"))

-- The clause of buildDeviceWhere for `q`.
unfoldable pub matches : Text → Text
unfolding lit
matches p =
    lit "(d.hostname ILIKE "
    ++ (p
        ++ (lit " OR host(d.primary_ip) ILIKE "
            ++ (p ++ (lit " OR d.serial ILIKE " ++ (p ++ lit ")")))))

abbrev pub query_clause : Text → List Text × List Arg → List Text × List Arg
query_clause [] (clauses, args) = (clauses, args)
query_clause (c ∷ q) (clauses, args) =
    let (p, longer) = next (like (c ∷ q)) args in (clauses ++ matches p ∷ [], longer)

abbrev pub type_clause : Text → List Text × List Arg → List Text × List Arg
type_clause [] (clauses, args) = (clauses, args)
type_clause (c ∷ t) (clauses, args) =
    let (p, longer) = next (text (c ∷ t)) args in
    (clauses ++ (lit "d.device_type = " ++ p) ∷ [], longer)

-- buildDeviceWhere
unfoldable pub build_device_where : DeviceFilter → List Arg → Text × List Arg
unfolding lit
build_device_where f args =
    let (clauses, longer) =
      type_clause f.type (query_clause (trim_space f.query) (lit "1=1" ∷ [], args)) in
    (join (lit " AND ") clauses, longer)
