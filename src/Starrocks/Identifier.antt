-- ===== src/Starrocks/Identifier.antt =====
-- internal/adapter/starrocks: the tests of identifiers, of query_builder.go and
-- mutation_validator.go, and their quotes.
use mountain_king.Errors.{Result, ok, err_validation_invalid_field, validation_error}
use mountain_king.Prelude.{
  ℕ, Bool, false, not, ◌&&◌, ◌||◌, [], ◌∷◌, ◌++◌, Bytes, ltb, ◌==◌, if◌then◌else◌, length, all,
  is_letter, is_word, is_words,
}
use mountain_king.Template.Sanitizer.{backtick}

-- `ValidateIdentifier`: `^[a-zA-Z0-9_]+$`.
unfoldable pub validate_identifier : Bytes → Result (Unit {0})
unfolding is_words
validate_identifier [] = validation_error err_validation_invalid_field
validate_identifier (c ∷ name) =
    if not (is_words (c ∷ name)) then validation_error err_validation_invalid_field else ok tt

-- `^[a-zA-Z_][a-zA-Z0-9_]*$`.
unfoldable pub mutation_identifier_re : Bytes → Bool
mutation_identifier_re [] = false
mutation_identifier_re (c ∷ name) = (is_letter c || c == b'_') && all is_word name

abbrev pub max_identifier_length : ℕ
max_identifier_length = 128

unfoldable pub validate_mutation_identifier : Bytes → Result (Unit {0})
unfolding mutation_identifier_re
validate_mutation_identifier [] = validation_error err_validation_invalid_field
validate_mutation_identifier (c ∷ name) =
    if ltb max_identifier_length (length (c ∷ name))
    then validation_error err_validation_invalid_field
    else if not (mutation_identifier_re (c ∷ name))
    then validation_error err_validation_invalid_field
    else ok tt

unfoldable pub quote_identifier : Bytes → Bytes
quote_identifier name = backtick ∷ (name ++ backtick ∷ [])
