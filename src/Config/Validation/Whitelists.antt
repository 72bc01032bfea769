-- ===== src/Config/Validation/Whitelists.antt =====
-- What the validation of the configuration says of the whitelist that the adapter parses.
use mountain_king.Config.Validation.{
  column_errors, columns_errors, table_errors, tables_errors, whitelist_errors,
  validate_starrocks_whitelist,
}
use mountain_king.Datasource.Whitelist.{
  Tables, checked_name, allowed_columns, columns_key, allowed_table, allowed_tables, tables_key,
  parse_allowed_tables,
}
use mountain_king.Errors.{Code, ok}
use mountain_king.Prelude.{
  ◌≡◌, refl, true, Option, none, some, List, [], ◌∷◌, ◌++◌, Bytes, codes, arith, is_words,
}
use mountain_king.Starrocks.Identifier.{validate_identifier}
use mountain_king.Starrocks.Query.Accepted.{Yields, bind-Yields}
use mountain_king.Value.{
  Value, Items, nil, cons, Fields, end, field, string, slice, object, null, lookup_field,
}

-- The names of the tables are identifiers.
abbrev pub HasNames : Fields → Type 0
HasNames end = Unit
HasNames (field name def tables) = (is_words name ≡ true) × HasNames tables

-- The names of the tables that stand in the options.
abbrev pub HasTableNames : Option Value → Type 0
HasTableNames (some (object tables)) = HasNames tables
HasTableNames v = Unit

both-nil : {A : Type 0} (xs ys : List A) → xs ++ ys ≡ [] → (xs ≡ []) × (ys ≡ [])
both-nil [] ys e = (refl, e)
both-nil (x ∷ xs) ys e = cc

name-Yields :
    (code : Code) (name : Bytes)
    → is_words name ≡ true
    → Yields (checked_name validate_identifier code name)
unfolding checked_name validate_identifier is_words
name-Yields code [] h = cc
name-Yields code (c ∷ name) h = (tt, ground arith)

columns-Yields :
    (cs : Items) → column_errors cs ≡ [] → Yields (allowed_columns validate_identifier cs)
unfolding column_errors allowed_columns
columns-Yields nil e = ([], refl)
columns-Yields (cons (string name) cs) e =
    bind-Yields (name-Yields _ name (ground arith))
      (λ _. bind-Yields (columns-Yields cs (ground arith)) (λ _. (_, refl)))
columns-Yields (cons c cs) e = cc

key-Yields : (v : Option Value) → columns_errors v ≡ [] → Yields (columns_key validate_identifier v)
unfolding columns_errors columns_key
key-Yields none e = cc
key-Yields (some (slice nil)) e = cc
key-Yields (some (slice (cons c cs))) e = columns-Yields (cons c cs) e
key-Yields (some v) e = cc

table-Yields :
    (def : Value) → table_errors def ≡ [] → Yields (allowed_table validate_identifier def)
unfolding table_errors allowed_table
table-Yields (object table_map) e = key-Yields (lookup_field (codes "columns") table_map) e
table-Yields def e = cc

tables-Yields :
    (ts : Fields)
    → tables_errors ts ≡ []
    → HasNames ts
    → Yields (allowed_tables validate_identifier ts)
unfolding tables_errors allowed_tables
tables-Yields end e h = ([], refl)
tables-Yields (field name def tables) e (p, h) =
    let (first, rest) = both-nil (table_errors def) (tables_errors tables) e in
    bind-Yields (name-Yields _ name p) (λ _.
      bind-Yields (table-Yields def first)
        (λ _. bind-Yields (tables-Yields tables rest h) (λ _. (_, refl))))

whitelist-Yields :
    (v : Option Value)
    → whitelist_errors v ≡ []
    → HasTableNames v
    → Yields (tables_key validate_identifier v)
unfolding whitelist_errors tables_key
whitelist-Yields none e h = cc
whitelist-Yields (some null) e h = cc
whitelist-Yields (some (object end)) e h = cc
whitelist-Yields (some (object (field name def tables))) e h =
    tables-Yields (field name def tables) e h
whitelist-Yields (some v) e h = cc

-- Options that the validation of the configuration has nothing against are parsed by the StarRocks
-- adapter, if the names of the tables are identifiers, which the validation does not look at.
pub parse_allowed_tables-validated :
    (options : Fields)
    → validate_starrocks_whitelist options ≡ []
    → HasTableNames (lookup_field (codes "allowed_tables") options)
    → (w : Tables) × (parse_allowed_tables validate_identifier options ≡ ok w)
unfolding validate_starrocks_whitelist parse_allowed_tables
parse_allowed_tables-validated options e h =
    whitelist-Yields (lookup_field (codes "allowed_tables") options) e h
