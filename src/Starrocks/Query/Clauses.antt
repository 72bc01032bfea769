-- ===== src/Starrocks/Query/Clauses.antt =====
-- The clauses that the builder accepts are fragments with one placeholder for each parameter.
use mountain_king.Datasource.Request.{
  FilterOperator, eq, neq, gt, gte, lt, lte, like, is_in, not_in, is_null, is_not_null, unknown,
  FilterCondition, SortDirection, asc, desc, OrderByClause,
}
use mountain_king.Errors.{ok, >>=-eq-ok, ok-injective}
use mountain_king.Prelude.{
  ℕ, ◌≡◌, refl, subst, Bool, true, false, List, [], ◌∷◌, ◌++◌, arith, String, Bytes, codes,
  if◌then◌else◌, length, length-append,
}
use mountain_king.Starrocks.Fragment.{
  IsFragment, nil-IsFragment, append-IsFragment, codes-IsFragment, holes,
  validate_identifier-IsFragment, quote_identifier-IsFragment,
}
use mountain_king.Starrocks.Fragment.Lists.{
  AreFragments, none_left, more, cast, join-IsFragment, replicate-AreFragments,
}
use mountain_king.Starrocks.Identifier.{quote_identifier}
use mountain_king.Starrocks.Query.{
  Columns, check_column, select_parts, build_select_clause, build_in_clause, filter_clause,
  where_parts, build_where_clause, direction, order_by_parts, build_order_by_clause, optional,
}
use mountain_king.Value.{Value, nil, cons, slice, to_list}

-- Text, or clauses, with one placeholder for each parameter.
abbrev pub IsSql : Bytes × List Value → Type 0
IsSql r = IsFragment (length r.1) r.0

abbrev AreSql : List Bytes × List Value → Type 0
AreSql r = AreFragments (length r.1) r.0

comma-IsFragment : IsFragment 0 (codes ", ")
comma-IsFragment = codes-IsFragment ", " 0 (unfold holes in refl)

check_column-IsFragment :
    (cols : Columns) (f : Bytes) → check_column cols f ≡ ok tt → IsFragment 0 (quote_identifier f)
unfolding check_column
check_column-IsFragment cols f h =
    quote_identifier-IsFragment f (validate_identifier-IsFragment f (ground arith))

select_parts-AreFragments :
    (cols : Columns) (fs parts : List Bytes)
    → select_parts cols fs ≡ ok parts
    → AreFragments 0 parts
unfolding select_parts
select_parts-AreFragments cols [] parts h = subst (AreFragments 0) (ground arith) none_left
select_parts-AreFragments cols (f ∷ fs) parts h =
    let (_, valid, h') = >>=-eq-ok (check_column cols f) _ parts h in
    let (rest, found, e) = >>=-eq-ok (select_parts cols fs) _ parts h' in
    subst (AreFragments 0) (ok-injective e) (
      more (check_column-IsFragment cols f valid) (select_parts-AreFragments cols fs rest found)
        refl)

pub select-IsFragment :
    (cols : Columns) (fs : List Bytes) (s : Bytes)
    → build_select_clause cols fs ≡ ok s
    → IsFragment 0 s
unfolding build_select_clause holes
select-IsFragment cols [] s h = subst (IsFragment 0) (ok-injective h) (codes-IsFragment "*" 0 refl)
select-IsFragment cols (f ∷ fs) s h =
    let (parts, found, e) = >>=-eq-ok (select_parts cols (f ∷ fs)) _ s h in
    subst (IsFragment 0) (ok-injective e) (
      join-IsFragment (codes ", ") comma-IsFragment
        (select_parts-AreFragments cols (f ∷ fs) parts found))

module _ (col : Bytes) (p : IsFragment 0 col) where
  clause_with :
      (s : String) (n : ℕ) (params : List Value) (r : Bytes × List Value)
      → IsFragment n (codes s)
      → n ≡ length params
      → (col ++ codes s, params) ≡ r
      → IsSql r
  clause_with s n params r q e h = subst IsSql h (cast (omega arith) (append-IsFragment p q))

  in_clause-IsFragment :
      (value : Value) (negate : Bool) (r : Bytes × List Value)
      → build_in_clause col value negate ≡ ok r
      → IsSql r
  unfolding build_in_clause holes
  in_clause-IsFragment (slice (cons v vs)) negate r h =
      let values = to_list (cons v vs) in
      let op-IsFragment : IsFragment 0 (if negate then codes "NOT IN" else codes "IN") =
        elim negate as (λ b. IsFragment 0 (if b then codes "NOT IN" else codes "IN")) [
          | true ↦ codes-IsFragment "NOT IN" 0 refl
          | false ↦ codes-IsFragment "IN" 0 refl
        ] in
      let list =
        join-IsFragment (codes ", ") comma-IsFragment
          (replicate-AreFragments (length values) (codes-IsFragment "?" 1 refl)) in
      subst IsSql (ok-injective h) (
        cast (omega arith) (
          append-IsFragment p (
            append-IsFragment (codes-IsFragment " " 0 refl) (
              append-IsFragment op-IsFragment (
                append-IsFragment (codes-IsFragment " (" 0 refl)
                  (append-IsFragment list (codes-IsFragment ")" 0 refl)))))))
  in_clause-IsFragment (slice nil) negate r h = cc
  in_clause-IsFragment value negate r h = cc

  filter_clause-IsFragment :
      (op : FilterOperator) (value : Value) (r : Bytes × List Value)
      → filter_clause col op value ≡ ok r
      → IsSql r
  unfolding filter_clause holes
  filter_clause-IsFragment eq value r h =
      clause_with " = ?" 1 (value ∷ []) r (codes-IsFragment " = ?" 1 refl) refl (ok-injective h)
  filter_clause-IsFragment neq value r h =
      clause_with " != ?" 1 (value ∷ []) r (codes-IsFragment " != ?" 1 refl) refl (ok-injective h)
  filter_clause-IsFragment gt value r h =
      clause_with " > ?" 1 (value ∷ []) r (codes-IsFragment " > ?" 1 refl) refl (ok-injective h)
  filter_clause-IsFragment gte value r h =
      clause_with " >= ?" 1 (value ∷ []) r (codes-IsFragment " >= ?" 1 refl) refl (ok-injective h)
  filter_clause-IsFragment lt value r h =
      clause_with " < ?" 1 (value ∷ []) r (codes-IsFragment " < ?" 1 refl) refl (ok-injective h)
  filter_clause-IsFragment lte value r h =
      clause_with " <= ?" 1 (value ∷ []) r (codes-IsFragment " <= ?" 1 refl) refl (ok-injective h)
  filter_clause-IsFragment like value r h =
      clause_with " LIKE ?" 1 (value ∷ []) r (codes-IsFragment " LIKE ?" 1 refl) refl
        (ok-injective h)
  filter_clause-IsFragment is_in value r h = in_clause-IsFragment value false r h
  filter_clause-IsFragment not_in value r h = in_clause-IsFragment value true r h
  filter_clause-IsFragment is_null value r h =
      clause_with " IS NULL" 0 [] r (codes-IsFragment " IS NULL" 0 refl) refl (ok-injective h)
  filter_clause-IsFragment is_not_null value r h =
      clause_with " IS NOT NULL" 0 [] r (codes-IsFragment " IS NOT NULL" 0 refl) refl
        (ok-injective h)
  filter_clause-IsFragment (unknown n) value r h = cc

where_parts-AreFragments :
    (cols : Columns) (fs : List FilterCondition) (r : List Bytes × List Value)
    → where_parts cols fs ≡ ok r
    → AreSql r
unfolding where_parts
where_parts-AreFragments cols [] r h = subst AreSql (ok-injective h) none_left
where_parts-AreFragments cols (f ∷ fs) r h =
    let (_, valid, h') = >>=-eq-ok (check_column cols f.field) _ r h in
    let (one, first, h'') =
      >>=-eq-ok (filter_clause (quote_identifier f.field) f.operator f.value) _ r h' in
    let (rest, found, e) = >>=-eq-ok (where_parts cols fs) _ r h'' in
    subst AreSql (ok-injective e) (
      more
        (filter_clause-IsFragment (quote_identifier f.field)
          (check_column-IsFragment cols f.field valid) f.operator f.value one first)
        (where_parts-AreFragments cols fs rest found) (length-append one.1 rest.1))

pub where-IsFragment :
    (cols : Columns) (fs : List FilterCondition) (r : Bytes × List Value)
    → build_where_clause cols fs ≡ ok r
    → IsSql r
unfolding build_where_clause
where-IsFragment cols [] r h = subst IsSql (ok-injective h) nil-IsFragment
where-IsFragment cols (f ∷ fs) r h =
    let (parts, found, e) = >>=-eq-ok (where_parts cols (f ∷ fs)) _ r h in
    subst IsSql (ok-injective e) (
      join-IsFragment (codes " AND ") (codes-IsFragment " AND " 0 (unfold holes in refl))
        (where_parts-AreFragments cols (f ∷ fs) parts found))

direction-IsFragment : (d : SortDirection) → IsFragment 0 (direction d)
unfolding direction holes
direction-IsFragment asc = codes-IsFragment "ASC" 0 refl
direction-IsFragment desc = codes-IsFragment "DESC" 0 refl

order_by_parts-AreFragments :
    (cols : Columns) (os : List OrderByClause) (parts : List Bytes)
    → order_by_parts cols os ≡ ok parts
    → AreFragments 0 parts
unfolding order_by_parts
order_by_parts-AreFragments cols [] parts h = subst (AreFragments 0) (ok-injective h) none_left
order_by_parts-AreFragments cols (o ∷ os) parts h =
    let (_, valid, h') = >>=-eq-ok (check_column cols o.field) _ parts h in
    let (rest, found, e) = >>=-eq-ok (order_by_parts cols os) _ parts h' in
    subst (AreFragments 0) (ok-injective e) (
      more
        (append-IsFragment (check_column-IsFragment cols o.field valid) (
          append-IsFragment (codes-IsFragment " " 0 (unfold holes in refl))
            (direction-IsFragment o.direction)))
        (order_by_parts-AreFragments cols os rest found) refl)

pub order_by-IsFragment :
    (cols : Columns) (os : List OrderByClause) (s : Bytes)
    → build_order_by_clause cols os ≡ ok s
    → IsFragment 0 s
unfolding build_order_by_clause
order_by-IsFragment cols [] s h = subst (IsFragment 0) (ok-injective h) nil-IsFragment
order_by-IsFragment cols (o ∷ os) s h =
    let (parts, found, e) = >>=-eq-ok (order_by_parts cols (o ∷ os)) _ s h in
    subst (IsFragment 0) (ok-injective e) (
      join-IsFragment (codes ", ") comma-IsFragment
        (order_by_parts-AreFragments cols (o ∷ os) parts found))

pub optional-IsFragment :
    (word s : Bytes) {n : ℕ} → IsFragment 0 word → IsFragment n s → IsFragment n (optional word s)
unfolding optional
optional-IsFragment word [] p q = q
optional-IsFragment word (c ∷ s) p q = cast (omega arith) (append-IsFragment p q)
