-- ===== src/Starrocks/Mutation/Clauses.antt =====
-- The lists and the WHERE clause of a write are fragments with one placeholder for each parameter.
use mountain_king.Datasource.Request.{
  FilterOperator, eq, neq, gt, gte, lt, lte, like, is_in, not_in, is_null, is_not_null, unknown,
  FilterCondition,
}
use mountain_king.Prelude.{
  ℕ, refl, subst, Bool, true, false, List, [], ◌∷◌, ◌++◌, arith, String, Bytes, All, length,
  length-append, replicate, codes,
}
use mountain_king.Starrocks.Fragment.{
  IsFragment, nil-IsFragment, append-IsFragment, codes-IsFragment, holes,
  quote_identifier-IsFragment,
}
use mountain_king.Starrocks.Fragment.Lists.{
  AreFragments, none_left, more, cast, append-AreFragments, join-IsFragment, replicate-AreFragments,
}
use mountain_king.Starrocks.Identifier.{quote_identifier}
use mountain_king.Starrocks.Mutation.Builder.{
  write_from, write_list, placeholders, mutation_in_clause, mutation_clause_of, mutation_clauses,
  build_mutation_where_clause,
}
use mountain_king.Value.{Value, cons, slice, to_list}

write_from-IsFragment :
    {n : ℕ} (started : Bool) {xs : List Bytes}
    → AreFragments n xs
    → IsFragment n (write_from started xs)
unfolding write_from
write_from-IsFragment started none_left = nil-IsFragment
write_from-IsFragment true (more p ps e) = cast (omega arith) (
    append-IsFragment (codes-IsFragment ", " 0 (unfold holes in refl))
      (append-IsFragment p (write_from-IsFragment true ps)))
write_from-IsFragment false (more p ps e) =
    cast (omega arith) (append-IsFragment p (write_from-IsFragment true ps))

pub write_list-IsFragment :
    {n : ℕ} {xs : List Bytes} → AreFragments n xs → IsFragment n (write_list xs)
unfolding write_list
write_list-IsFragment ps = write_from-IsFragment false ps

pub one_of_each : (n : ℕ) → AreFragments n (placeholders n)
unfolding placeholders
one_of_each n =
    subst (λ j. AreFragments j (replicate n (codes "?"))) (omega arith)
      (replicate-AreFragments n (codes-IsFragment "?" 1 (unfold holes in refl)))

module _ (col : Bytes) (p : IsFragment 0 col) where
  clause_with :
      (s : String) (n : ℕ) → IsFragment n (codes s) → AreFragments n ((col ++ codes s) ∷ [])
  clause_with s n q = more (append-IsFragment p q) none_left (omega arith)

  in_clause-AreFragments :
      (op : Bytes)
      → IsFragment 0 op
      → (value : Value)
      → AreFragments
          (length (mutation_in_clause col op value).1)
          (mutation_in_clause col op value).0
  unfolding mutation_in_clause
  in_clause-AreFragments op q (slice (cons v vs)) =
      more
        (append-IsFragment p (
          append-IsFragment q (
            append-IsFragment (codes-IsFragment "(" 0 (unfold holes in refl)) (
              append-IsFragment (write_list-IsFragment (one_of_each (length (to_list (cons v vs)))))
                (codes-IsFragment ")" 0 (unfold holes in refl))))))
        none_left (omega arith)
  in_clause-AreFragments op q value =
      more
        (append-IsFragment p
          (append-IsFragment q (codes-IsFragment "(?)" 1 (unfold holes in refl))))
        none_left (omega arith)

  clause_of-AreFragments :
      (op : FilterOperator) (value : Value)
      → AreFragments
          (length (mutation_clause_of col op value).1)
          (mutation_clause_of col op value).0
  unfolding mutation_clause_of holes
  clause_of-AreFragments eq value = clause_with " = ?" 1 (codes-IsFragment " = ?" 1 refl)
  clause_of-AreFragments neq value = clause_with " != ?" 1 (codes-IsFragment " != ?" 1 refl)
  clause_of-AreFragments gt value = clause_with " > ?" 1 (codes-IsFragment " > ?" 1 refl)
  clause_of-AreFragments gte value = clause_with " >= ?" 1 (codes-IsFragment " >= ?" 1 refl)
  clause_of-AreFragments lt value = clause_with " < ?" 1 (codes-IsFragment " < ?" 1 refl)
  clause_of-AreFragments lte value = clause_with " <= ?" 1 (codes-IsFragment " <= ?" 1 refl)
  clause_of-AreFragments like value = clause_with " LIKE ?" 1 (codes-IsFragment " LIKE ?" 1 refl)
  clause_of-AreFragments is_in value =
      in_clause-AreFragments (codes " IN ") (codes-IsFragment " IN " 0 refl) value
  clause_of-AreFragments not_in value =
      in_clause-AreFragments (codes " NOT IN ") (codes-IsFragment " NOT IN " 0 refl) value
  clause_of-AreFragments is_null value =
      clause_with " IS NULL" 0 (codes-IsFragment " IS NULL" 0 refl)
  clause_of-AreFragments is_not_null value =
      clause_with " IS NOT NULL" 0 (codes-IsFragment " IS NOT NULL" 0 refl)
  clause_of-AreFragments (unknown n) value = none_left

clauses-AreFragments :
    (fs : List FilterCondition)
    → All (λ f. IsFragment 0 f.field) fs
    → AreFragments (length (mutation_clauses fs).1) (mutation_clauses fs).0
unfolding mutation_clauses
clauses-AreFragments [] a = none_left
clauses-AreFragments (f ∷ fs) (a, as') =
    append-AreFragments
      (clause_of-AreFragments (quote_identifier f.field) (quote_identifier-IsFragment f.field a)
        f.operator f.value)
      (clauses-AreFragments fs as') (length-append _ _)

pub where_clause-IsFragment :
    (fs : List FilterCondition)
    → All (λ f. IsFragment 0 f.field) fs
    → IsFragment (length (build_mutation_where_clause fs).1) (build_mutation_where_clause fs).0
unfolding build_mutation_where_clause
where_clause-IsFragment fs a =
    join-IsFragment (codes " AND ") (codes-IsFragment " AND " 0 (unfold holes in refl))
      (clauses-AreFragments fs a)
