-- ===== src/Starrocks/Mutation/Tests.antt =====
-- Statements for concrete inputs, and the theorems at inputs that pass validation.
use mountain_king.Datasource.Request.{FilterCondition, eq, is_in, is_null}
use mountain_king.Errors.{
  err_validation_invalid_field, err_validation_invalid_table, validation_error,
}
use mountain_king.Prelude.{◌≡◌, refl, List, [], ◌∷◌, codes}
use mountain_king.Prelude.Int.{pos}
use mountain_king.Starrocks.Mutation.{
  MutationValidator, validate_insert_input, validate_delete_input,
}
use mountain_king.Starrocks.Mutation.Builder.{build_insert, build_update, build_batch_insert}
use mountain_king.Starrocks.Identifier.{validate_mutation_identifier}
use mountain_king.Value.{int, null, slice, nil, cons}

abbrev filters : List FilterCondition
filters =
    record {
      field = codes "id";
      operator = is_in;
      value = slice (cons (int (pos 1)) (cons (int (pos 2)) nil));
    }
    ∷ record { field = codes "gone"; operator = is_null; value = null }
    ∷ []

abbrev limits : MutationValidator
limits = record { max_batch_size = 100; max_sql_length = 1000 }

insert_text :
    (build_insert (codes "t") (codes "a" ∷ codes "b" ∷ []) (null ∷ int (pos 3) ∷ [])).sql
    ≡ codes "INSERT INTO `t` (`a`, `b`) VALUES (?, ?)"
unfolding build_insert
insert_text = refl

update_text :
    (build_update (codes "t") (codes "a" ∷ []) (null ∷ []) filters).sql
    ≡ codes "UPDATE `t` SET `a` = ? WHERE `id` IN (?, ?) AND `gone` IS NULL"
unfolding build_update
update_text = refl

batch_text :
    (build_batch_insert
      (codes "t")
      (codes "a" ∷ codes "b" ∷ [])
      ((null ∷ null ∷ []) ∷ (null ∷ null ∷ []) ∷ [])).sql
    ≡ codes "INSERT INTO `t` (`a`, `b`) VALUES (?, ?), (?, ?)"
unfolding build_batch_insert
batch_text = refl

refuses_quote :
    validate_insert_input (codes "t`; --") (codes "a" ∷ []) (null ∷ [])
    ≡ validation_error err_validation_invalid_table
unfolding validate_insert_input validate_mutation_identifier
refuses_quote = refl

refuses_digit :
    validate_delete_input
      (codes "t")
      (record { field = codes "1a"; operator = eq; value = null } ∷ [])
    ≡ validation_error err_validation_invalid_field
unfolding validate_delete_input validate_mutation_identifier
refuses_digit = refl
