-- ===== src/Datasource/Whitelist/Names.antt =====
-- The names in a whitelist that was parsed.
use mountain_king.Errors.{Code, Result, ok, >>=-eq-ok, ok-injective}
use mountain_king.Prelude.{
  sym, Bool-cases, inl, inr, ◌≡◌, subst, true, Option, none, some, List, [], ◌∷◌, arith, Bytes,
  Bool, codes, All, any, bytes_eq, bytes_eq_iff,
}
use mountain_king.Datasource.Whitelist.{
  Tables, checked_name, allowed_columns, columns_key, allowed_table, allowed_tables, tables_key,
  parse_allowed_tables, allowed_in,
}
use mountain_king.Value.{
  Value, Items, nil, cons, Fields, end, field, string, slice, object, lookup_field,
}

module _ (validate_identifier : Bytes → Result (Unit {0})) where
  abbrev pub IsName : Bytes → Type 0
  IsName name = validate_identifier name ≡ ok tt

  -- A table and its columns are identifiers.
  pub record AreNames (t : Bytes × List Bytes) : Type 0 where
    pub name : IsName t.0
    pub columns : All IsName t.1

  checked_name-IsName :
      (code : Code) (name : Bytes)
      → checked_name validate_identifier code name ≡ ok tt
      → IsName name
  unfolding checked_name
  checked_name-IsName code name h = ground arith

  allowed_columns-All :
      (cs : Items) (r : List Bytes) → allowed_columns validate_identifier cs ≡ ok r → All IsName r
  unfolding allowed_columns
  allowed_columns-All nil r h = subst (All IsName) (ok-injective h) tt
  allowed_columns-All (cons (string name) cs) r h =
      let (_, valid, h') = >>=-eq-ok (checked_name validate_identifier _ name) _ r h in
      let (rest, parsed, e) = >>=-eq-ok (allowed_columns validate_identifier cs) _ r h' in
      subst (All IsName) (ok-injective e)
        (checked_name-IsName _ name valid, allowed_columns-All cs rest parsed)
  allowed_columns-All (cons c cs) r h = cc

  columns_key-All :
      (v : Option Value) (r : List Bytes) → columns_key validate_identifier v ≡ ok r → All IsName r
  unfolding columns_key
  columns_key-All (some (slice (cons c cs))) r h = allowed_columns-All (cons c cs) r h
  columns_key-All (some v) r h = cc
  columns_key-All none r h = cc

  allowed_table-All :
      (def : Value) (r : List Bytes) → allowed_table validate_identifier def ≡ ok r → All IsName r
  unfolding allowed_table
  allowed_table-All (object table_map) r h =
      columns_key-All (lookup_field (codes "columns") table_map) r h
  allowed_table-All def r h = cc

  allowed_tables-AreNames :
      (ts : Fields) (w : Tables) → allowed_tables validate_identifier ts ≡ ok w → All AreNames w
  unfolding allowed_tables
  allowed_tables-AreNames end w h = subst (All AreNames) (ok-injective h) tt
  allowed_tables-AreNames (field name def tables) w h =
      let (_, valid, h₁) = >>=-eq-ok (checked_name validate_identifier _ name) _ w h in
      let (cols, table_ok, h₂) = >>=-eq-ok (allowed_table validate_identifier def) _ w h₁ in
      let (rest, rest_ok, e) = >>=-eq-ok (allowed_tables validate_identifier tables) _ w h₂ in
      subst (All AreNames) (ok-injective e) (
        record {
          name = checked_name-IsName _ name valid;
          columns = allowed_table-All def cols table_ok;
        },
        allowed_tables-AreNames tables rest rest_ok,
      )

  tables_key-AreNames :
      (v : Option Value) (w : Tables) → tables_key validate_identifier v ≡ ok w → All AreNames w
  unfolding tables_key
  tables_key-AreNames (some (object (field name def ts))) w h =
      allowed_tables-AreNames (field name def ts) w h
  tables_key-AreNames (some v) w h = cc
  tables_key-AreNames none w h = cc

  pub parse_allowed_tables-AreNames :
      (options : Fields) (w : Tables)
      → parse_allowed_tables validate_identifier options ≡ ok w
      → All AreNames w
  unfolding parse_allowed_tables
  parse_allowed_tables-AreNames options w h =
      tables_key-AreNames (lookup_field (codes "allowed_tables") options) w h

  any-IsName :
      (names : List Bytes) (c : Bytes)
      → All IsName names
      → any (λ k. bytes_eq k c) names ≡ true
      → IsName c
  any-IsName [] c a h = cc
  any-IsName (k ∷ ks) c (p, a) h = elim (Bool-cases (bytes_eq k c)) [
    | inl same ↦ subst IsName (ground (arith, bytes_eq_iff k c)) p
    | inr differs ↦ any-IsName ks c a (ground arith)
  ]

  -- Every table that is found has an identifier as its name, and so has every column of it.
  pub allowed_in-IsName :
      (w : Tables) (table : Bytes) (cols : Bytes → Bool)
      → All AreNames w
      → allowed_in w table ≡ some cols
      → IsName table × ((c : Bytes) → cols c ≡ true → IsName c)
  unfolding allowed_in
  allowed_in-IsName [] table cols a h = cc
  allowed_in-IsName ((name, names) ∷ ts) table cols (p, a) h =
      elim (Bool-cases (bytes_eq name table)) [
        | inl same ↦
            let whole : some (λ c. any (λ k. bytes_eq k c) names) ≡ some cols = ground arith in
            let found : (λ c. any (λ k. bytes_eq k c) names) ≡ cols = cc in
            (
              subst IsName (ground (arith, bytes_eq_iff name table)) p.name,
              λ c passed.
                  any-IsName names c p.columns
                    (subst (λ (cs : Bytes → Bool). cs c ≡ true) (sym found) passed),
            )
        | inr differs ↦ allowed_in-IsName ts table cols a (ground arith)
      ]
