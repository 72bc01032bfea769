-- ===== src/Starrocks/Writable/Subset.antt =====
-- What may be written may be read, and the names of a parsed whitelist are identifiers.
use mountain_king.Errors.{ok, >>-eq-ok, >>=-eq-ok}
use mountain_king.Prelude.{
  ◌≡◌, sym, subst, ap, ◌∙◌, true, some, List, [], ◌∷◌, arith, Bytes, All, bytes_eq, bytes_eq_iff,
  Bool-cases, Option-cases, inl, inr,
}
use mountain_king.Starrocks.Query.{Columns}
use mountain_king.Starrocks.Writable.{
  WritableTableConfig, Writable, lookup_table, has_key, check_allowed, validate_writable_subset,
  Allowed, WritableTableValidator, find_table, validate_operation, validate_write_columns,
  validate_filter_columns,
}

-- Every one of the columns is in the set.
abbrev pub AllIn : Columns → List Bytes → Type 0
AllIn allowed cols = All (λ c. allowed c ≡ true) cols

pub check_allowed-AllIn :
    (allowed : Columns) (cols : List Bytes)
    → check_allowed allowed cols ≡ ok tt
    → AllIn allowed cols
unfolding check_allowed
check_allowed-AllIn allowed [] h = tt
check_allowed-AllIn allowed (col ∷ cols) h =
    let (first, rest) = >>-eq-ok _ (check_allowed allowed cols) h in
    (ground arith, check_allowed-AllIn allowed cols rest)

has_key-allowed :
    (allowed : Columns) (c : Bytes) (cols : List Bytes)
    → AllIn allowed cols
    → has_key c cols ≡ true
    → allowed c ≡ true
unfolding has_key
has_key-allowed allowed c [] a h = ground arith
has_key-allowed allowed c (col ∷ cols) (p, a) h =
    ground (arith, bytes_eq_iff col c, has_key-allowed allowed c cols a)

-- The columns of a set are all in a larger one.
AllIn-trans :
    (allowed : Columns) (cols names : List Bytes)
    → AllIn allowed cols
    → AllIn (λ c. has_key c cols) names
    → AllIn allowed names
AllIn-trans allowed cols [] a b = tt
AllIn-trans allowed cols (c ∷ names) a (p, b) =
    (has_key-allowed allowed c cols a p, AllIn-trans allowed cols names a b)

subset-lookup :
    (writable : Writable) (allowed : Allowed) (table : Bytes) (cfg : WritableTableConfig)
    → validate_writable_subset writable allowed ≡ ok tt
    → lookup_table table writable ≡ some cfg
    → (cols : Columns) × (allowed table ≡ some cols) × AllIn cols cfg.columns
unfolding validate_writable_subset lookup_table
subset-lookup [] allowed table cfg h e = ground arith
subset-lookup ((name, first) ∷ ts) allowed table cfg h e =
    let (here, rest) = >>-eq-ok _ (validate_writable_subset ts allowed) h in
    elim (Option-cases (allowed name)) [
      | inl missing ↦ ground arith
      | inr (cols, found) ↦ elim (Bool-cases (bytes_eq name table)) [
        | inl same ↦
            let passed : check_allowed cols first.columns ≡ ok tt = ground arith in
            let is_first : first ≡ cfg = ground arith in
            (
              cols,
              ap allowed (sym ((bytes_eq_iff name table).0 same)) ∙ found,
              subst (λ c. AllIn cols c.columns) is_first
                  (check_allowed-AllIn cols first.columns passed),
            )
        | inr other ↦ subset-lookup ts allowed table cfg rest (ground arith)
      ]
    ]

find_table-lookup :
    (v : WritableTableValidator) (table : Bytes) (cfg : WritableTableConfig)
    → find_table v table ≡ ok cfg
    → lookup_table table v.writable_tables ≡ some cfg
unfolding find_table
find_table-lookup v table cfg h = ground arith

pub operation-found :
    (v : WritableTableValidator) (table operation : Bytes)
    → validate_operation v table operation ≡ ok tt
    → (cfg : WritableTableConfig) × (lookup_table table v.writable_tables ≡ some cfg)
      × (has_key operation cfg.allowed_operations ≡ true)
unfolding validate_operation
operation-found v table operation h =
    let (cfg, found, passed) = >>=-eq-ok (find_table v table) _ tt h in
    (cfg, find_table-lookup v table cfg found, ground arith)

pub filter_columns-AllIn :
    (v : WritableTableValidator) (table : Bytes) (fields : List Bytes)
    → validate_filter_columns v table fields ≡ ok tt
    → (cols : Columns) × (v.allowed_tables table ≡ some cols) × AllIn cols fields
unfolding validate_filter_columns
filter_columns-AllIn v table fields h = elim (Option-cases (v.allowed_tables table)) [
  | inl missing ↦ ground arith
  | inr (cols, found) ↦ (cols, found, check_allowed-AllIn cols fields (ground arith))
]

pub write_columns-found :
    (v : WritableTableValidator) (table : Bytes) (names : List Bytes)
    → validate_write_columns v table names ≡ ok tt
    → (cfg : WritableTableConfig) × (lookup_table table v.writable_tables ≡ some cfg)
      × AllIn (λ c. has_key c cfg.columns) names
unfolding validate_write_columns
write_columns-found v table names h =
    let (cfg, found, passed) = >>=-eq-ok (find_table v table) _ tt h in
    (cfg, find_table-lookup v table cfg found, check_allowed-AllIn _ names passed)

-- With a whitelist that passed the test of the server's start, the columns that pass the test of a
-- write belong to a table that may be read, and may be read too.
pub write_columns-AllIn :
    (v : WritableTableValidator) (table : Bytes) (names : List Bytes)
    → validate_writable_subset v.writable_tables v.allowed_tables ≡ ok tt
    → validate_write_columns v table names ≡ ok tt
    → (cols : Columns) × (v.allowed_tables table ≡ some cols) × AllIn cols names
write_columns-AllIn v table names subset h =
    let (cfg, found, writable) = write_columns-found v table names h in
    let (cols, readable, all_cols) =
      subset-lookup v.writable_tables v.allowed_tables table cfg subset found in
    (cols, readable, AllIn-trans cols cfg.columns names all_cols writable)
