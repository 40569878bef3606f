-- ===== src/Store/Queries/Shape.antt =====
-- internal/store/queries.go: what the texts and the limits of the queries depend on.
use motzworks.Prelude.{
  ℕ, zero, suc, ◌≤◌, ◌≡◌, refl, ap, List, [], ◌∷◌, ◌++◌, length, length-append, arith, append_assoc,
}
use motzworks.Prelude.Int.{ℤ, pos, negsuc}
use motzworks.Text.{Text, lit, is_empty, trim_space, join}
use motzworks.Store.Accounts.{page_limit}
use motzworks.Store.Queries.{
  DeviceFilter, Arg, text, number, Query, next, query_clause, type_clause, build_device_where,
}
use motzworks.Store.Queries.Devices.{count_query, page_query}
use motzworks.Store.Queries.Lists.{
  rollup_query, rollup_where, with_software_query, changes_query, changes_where, not_negative,
  scans_query, scan_events_query,
}

-- The two filters set the same conditions, whatever the values are.
pub record IsSameShape (f g : DeviceFilter) : Type 0 where
  pub same_query : is_empty (trim_space f.query) ≡ is_empty (trim_space g.query)
  pub same_type : is_empty f.type ≡ is_empty g.type

clauses_shape :
    (q q' t t' : Text)
    → is_empty q ≡ is_empty q'
    → is_empty t ≡ is_empty t'
    → let a = type_clause t (query_clause q (lit "1=1" ∷ [], [])) in
      let b = type_clause t' (query_clause q' (lit "1=1" ∷ [], [])) in
      (a.0 ≡ b.0) × (length a.1 ≡ length b.1)
unfolding next
clauses_shape [] [] [] [] h k = (refl, refl)
clauses_shape [] [] (c ∷ t) (c' ∷ t') h k = (refl, refl)
clauses_shape (d ∷ q) (d' ∷ q') [] [] h k = (refl, refl)
clauses_shape (d ∷ q) (d' ∷ q') (c ∷ t) (c' ∷ t') h k = (refl, refl)
clauses_shape [] (d' ∷ q') t t' h k = absurd (ground arith)
clauses_shape (d ∷ q) [] t t' h k = absurd (ground arith)
clauses_shape q q' [] (c' ∷ t') h k = absurd (ground arith)
clauses_shape q q' (c ∷ t) [] h k = absurd (ground arith)

build_device_where-shape :
    (f g : DeviceFilter)
    → IsSameShape f g
    → ((build_device_where f []).0 ≡ (build_device_where g []).0)
      × (length (build_device_where f []).1 ≡ length (build_device_where g []).1)
unfolding build_device_where
build_device_where-shape f g h =
    let (c, l) =
      clauses_shape (trim_space f.query) (trim_space g.query) f.type g.type h.same_query
        h.same_type in
    (ap (join (lit " AND ")) c, l)

-- Two filters that set the same conditions give queries with the same text, whatever their values
-- are; the page has the arguments of the count, then its limit and its offset.
pub device_queries_text :
    (f g : DeviceFilter)
    → IsSameShape f g
    → ((count_query f).sql ≡ (count_query g).sql)
      × ((page_query f).sql ≡ (page_query g).sql)
      × ((page_query f).args
          ≡ (count_query f).args ++ number (pos (page_limit 50 500 f.limit)) ∷ number f.offset ∷ [])
unfolding count_query page_query next
device_queries_text f g h =
    let (c, l) = build_device_where-shape f g h in
    (
      rw c refl,
      rw
          (
            length-append (build_device_where f []).1
                (number (pos (page_limit 50 500 f.limit)) ∷ []),
            length-append (build_device_where g []).1
                (number (pos (page_limit 50 500 g.limit)) ∷ []),
            c,
            l,
          )
          refl,
      append_assoc (build_device_where f []).1 (number (pos (page_limit 50 500 f.limit)) ∷ [])
          (number f.offset ∷ []),
    )

page_limit_bounds :
    (usual most : ℕ) (limit : ℤ)
    → 1 ≤ usual
    → usual ≤ most
    → (1 ≤ page_limit usual most limit) × (page_limit usual most limit ≤ most)
unfolding page_limit
page_limit_bounds usual most (pos zero) h k = ground arith
page_limit_bounds usual most (pos (suc n)) h k = ground arith
page_limit_bounds usual most (negsuc n) h k = ground arith

-- The query's arguments are those before, a limit from 1 to the most, and those after.
pub IsLimited : ℕ → List Arg → Query → List Arg → Type 0
IsLimited most before q after =
    (k : ℕ) × (q.args ≡ before ++ number (pos k) ∷ after) × (1 ≤ k) × (k ≤ most)

limited :
    (usual most : ℕ) (limit : ℤ) (before after : List Arg) (q : Query)
    → 1 ≤ usual
    → usual ≤ most
    → q.args ≡ before ++ number (pos (page_limit usual most limit)) ∷ after
    → IsLimited most before q after
unfolding IsLimited
limited usual most limit before after q h k e =
    let (low, high) = page_limit_bounds usual most limit h k in
    (page_limit usual most limit, e, low, high)

-- Whatever limit is asked for, a page of devices has at most 500 rows, the software at most 1000,
-- the devices with a software 2000, changes 500, scans 200 and events 5000, and none asks for no
-- row.
pub queries_limits :
    (f : DeviceFilter) (name version id : Text) (limit offset : ℤ)
    → IsLimited 500 (count_query f).args (page_query f) (number f.offset ∷ [])
      × IsLimited 1000
          (rollup_where (trim_space name)).1
          (rollup_query name limit offset version)
          (number (not_negative offset) ∷ [])
      × IsLimited 2000 (text name ∷ text version ∷ []) (with_software_query name version limit) []
      × IsLimited 500 (changes_where id).1 (changes_query id limit) []
      × IsLimited 200 [] (scans_query limit) []
      × IsLimited 5000 (text id ∷ []) (scan_events_query id limit) []
unfolding rollup_query with_software_query changes_query scans_query scan_events_query next
    count_query page_query
queries_limits f name version id limit offset = (
  limited 50 500 f.limit _ _ _ (omega arith) (omega arith) (
      append_assoc (build_device_where f []).1 (number (pos (page_limit 50 500 f.limit)) ∷ [])
        (number f.offset ∷ [])),
  limited 200 1000 limit _ _ _ (omega arith) (omega arith) (
      append_assoc (rollup_where (trim_space name)).1
        (number (pos (page_limit 200 1000 limit)) ∷ []) (number (not_negative offset) ∷ [])),
  limited 500 2000 limit _ _ _ (omega arith) (omega arith) refl,
  limited 100 500 limit _ _ _ (omega arith) (omega arith) refl,
  limited 50 200 limit _ _ _ (omega arith) (omega arith) refl,
  limited 1000 5000 limit _ _ _ (omega arith) (omega arith) refl,
)
