-- ===== src/Starrocks/Writable/Parsed.antt =====
-- The names in a whitelist that was parsed.
use mountain_king.Errors.{Code, ok, >>=-eq-ok, ok-injective}
use mountain_king.Prelude.{
  ◌≡◌, refl, subst, true, Option, none, some, List, ◌∷◌, arith, Bytes, codes, All, bytes_eq,
}
use mountain_king.Starrocks.Identifier.{validate_identifier}
use mountain_king.Starrocks.Writable.{
  WritableTableConfig, Writable, has_key, known_operation, checked, parse_columns, columns_of,
  default_allowed_operations, parse_operations, operations_of, parse_table, parse_tables, tables_of,
  parse_writable_tables,
}
use mountain_king.Starrocks.Writable.Subset.{AllIn}
use mountain_king.Value.{
  Value, Items, nil, cons, Fields, end, field, string, slice, object, lookup_field,
}

abbrev IsName : Bytes → Type 0
IsName name = validate_identifier name ≡ ok tt

-- Its columns are identifiers, and its operations among the three that there are.
pub record IsParsed (t : Bytes × WritableTableConfig) : Type 0 where
  pub name : IsName t.0
  pub columns : All IsName t.1.columns
  pub operations : AllIn (λ op. has_key op default_allowed_operations) t.1.allowed_operations

checked-IsName : (code : Code) (name : Bytes) → checked code name ≡ ok tt → IsName name
unfolding checked
checked-IsName code name h = ground arith

parse_columns-All : (cs : Items) (r : List Bytes) → parse_columns cs ≡ ok r → All IsName r
unfolding parse_columns
parse_columns-All nil r h = subst (All IsName) (ok-injective h) tt
parse_columns-All (cons (string name) cs) r h =
    let (_, valid, h') = >>=-eq-ok (checked _ name) _ r h in
    let (rest, parsed, e) = >>=-eq-ok (parse_columns cs) _ r h' in
    subst (All IsName) (ok-injective e)
      (checked-IsName _ name valid, parse_columns-All cs rest parsed)
parse_columns-All (cons c cs) r h = cc

columns_of-All : (v : Option Value) (r : List Bytes) → columns_of v ≡ ok r → All IsName r
unfolding columns_of
columns_of-All (some (slice (cons c cs))) r h = parse_columns-All (cons c cs) r h
columns_of-All (some v) r h = cc
columns_of-All none r h = cc

abbrev AreKnown : List Bytes → Type 0
AreKnown = AllIn (λ op. has_key op default_allowed_operations)

known_operation-has_key :
    (op : Bytes) → known_operation op ≡ ok tt → has_key op default_allowed_operations ≡ true
unfolding known_operation
known_operation-has_key op h = ground arith

parse_operations-AreKnown :
    (ops : Items) (r : List Bytes) → parse_operations ops ≡ ok r → AreKnown r
unfolding parse_operations
parse_operations-AreKnown nil r h = subst AreKnown (ok-injective h) tt
parse_operations-AreKnown (cons (string op) ops) r h =
    let (_, known, h') = >>=-eq-ok (known_operation op) _ r h in
    let (rest, parsed, e) = >>=-eq-ok (parse_operations ops) _ r h' in
    let all_known : AreKnown (op ∷ rest) =
      (known_operation-has_key op known, parse_operations-AreKnown ops rest parsed) in
    subst AreKnown (ok-injective e) all_known
parse_operations-AreKnown (cons op ops) r h = cc

operations_of-AreKnown : (v : Option Value) (r : List Bytes) → operations_of v ≡ ok r → AreKnown r
unfolding operations_of has_key bytes_eq
operations_of-AreKnown (some (slice (cons op ops))) r h =
    parse_operations-AreKnown (cons op ops) r h
operations_of-AreKnown (some v) r h = cc
operations_of-AreKnown none r h =
    let first_three : AreKnown default_allowed_operations = (refl, (refl, (refl, tt))) in
    subst AreKnown (ok-injective h) first_three

parse_table-IsParsed :
    (name : Bytes) (def : Value) (cfg : WritableTableConfig)
    → IsName name
    → parse_table def ≡ ok cfg
    → IsParsed (name, cfg)
unfolding parse_table
parse_table-IsParsed name (object table_map) cfg n h =
    let given_cols = lookup_field (codes "columns") table_map in
    let given_ops = lookup_field (codes "allowed_operations") table_map in
    let (cols, cols_ok, h') = >>=-eq-ok (columns_of given_cols) _ cfg h in
    let (ops, ops_ok, e) = >>=-eq-ok (operations_of given_ops) _ cfg h' in
    subst (λ c. IsParsed (name, c)) (ok-injective e)
      (record {
        name = n;
        columns = columns_of-All given_cols cols cols_ok;
        operations = operations_of-AreKnown given_ops ops ops_ok;
      })
parse_table-IsParsed name def cfg n h = cc

parse_tables-IsParsed : (ts : Fields) (w : Writable) → parse_tables ts ≡ ok w → All IsParsed w
unfolding parse_tables
parse_tables-IsParsed end w h = subst (All IsParsed) (ok-injective h) tt
parse_tables-IsParsed (field name def tables) w h =
    let (_, valid, h₁) = >>=-eq-ok (checked _ name) _ w h in
    let (cfg, table_ok, h₂) = >>=-eq-ok (parse_table def) _ w h₁ in
    let (rest, rest_ok, e) = >>=-eq-ok (parse_tables tables) _ w h₂ in
    subst (All IsParsed) (ok-injective e) (
      parse_table-IsParsed name def cfg (checked-IsName _ name valid) table_ok,
      parse_tables-IsParsed tables rest rest_ok,
    )

tables_of-IsParsed : (v : Option Value) (w : Writable) → tables_of v ≡ ok w → All IsParsed w
unfolding tables_of
tables_of-IsParsed (some (object (field name def ts))) w h =
    parse_tables-IsParsed (field name def ts) w h
tables_of-IsParsed (some v) w h = cc
tables_of-IsParsed none w h = cc

-- In a whitelist that the parser accepts, the tables and their columns have the names of identifiers,
-- and the operations are among insert, update and delete.
pub parse_writable_tables-IsParsed :
    (options : Fields) (w : Writable) → parse_writable_tables options ≡ ok w → All IsParsed w
unfolding parse_writable_tables
parse_writable_tables-IsParsed options w h =
    tables_of-IsParsed (lookup_field (codes "writable_tables") options) w h
