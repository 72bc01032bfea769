-- ===== src/Config/Validation/Tests.antt =====
-- Options and settings that are validated.
use mountain_king.Config.Validation.{
  secret_short, datasource_disabled, column_invalid, validate_starrocks_whitelist,
  validate_jwt_config, validate_mutations_config,
}
use mountain_king.Prelude.{◌≡◌, refl, false, true, some, [], ◌∷◌, codes, bytes_eq, Bytes}
use mountain_king.Prelude.Int.{pos}
use mountain_king.Value.{Fields, field, end, object, slice, cons, nil, string}

abbrev options_with : Bytes → Fields
options_with column =
    field (codes "allowed_tables")
      (object (
        field (codes "users")
          (object (field (codes "columns") (slice (cons (string column) nil)) end)) end))
      end

refuses_column : validate_starrocks_whitelist (options_with (codes "a b")) ≡ column_invalid ∷ []
unfolding validate_starrocks_whitelist bytes_eq
refuses_column = refl

refuses_secret :
    validate_jwt_config
      (λ f. [])
      (record { algorithm = []; secret = codes "short"; public_key_file = [] })
    ≡ secret_short ∷ []
unfolding validate_jwt_config
refuses_secret = refl

refuses_disabled :
    validate_mutations_config
      (record { name = codes "db"; type_name = codes "starrocks"; enabled = false } ∷ [])
      (record {
        enabled = true;
        datasource_name = codes "db";
        max_batch_size = pos 1;
        max_affected_rows = pos 1;
      })
    ≡ some datasource_disabled
unfolding validate_mutations_config
refuses_disabled = refl
