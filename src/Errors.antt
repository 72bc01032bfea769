-- ===== src/Errors.antt =====
-- internal/errors: the codes of API errors and their HTTP status. An error's message is not kept.
use mountain_king.Prelude.{ℕ, ◌≡◌, refl, ap, ◌∙◌, ◌⊎◌, inl, inr}

-- The codes that the modelled parts return, of errors.go.
pub data Code : Type 0 where
  err_auth_insufficient_permission : Code
  err_validation_payload_too_large : Code
  err_validation_batch_limit_exceeded : Code
  err_validation_invalid_table : Code
  err_validation_invalid_field : Code
  err_validation_unsafe_sql : Code
  err_validation_promql_injection : Code
  err_validation_missing_parameter : Code
  err_validation_invalid_parameter_type : Code
  err_validation_invalid_parameter_value : Code
  err_validation_template_not_found : Code
  err_internal_template_render_error : Code
  err_datasource_timeout : Code
  err_datasource_query_error : Code
  err_datasource_unavailable : Code
  err_mutation_operation_not_supported : Code
  err_auth_missing : Code
  err_auth_token_expired : Code
  err_auth_token_invalid : Code
  err_auth_brute_force_blocked : Code
  err_rate_limit_exceeded : Code
  err_service_unavailable : Code
  err_validation_get_query_disabled : Code
  err_validation_invalid_content_type : Code
  err_validation_invalid_body : Code
  err_validation_depth_exceeded : Code
  err_datasource_circuit_open : Code
  err_datasource_max_data_points : Code
  err_datasource_template_query_error : Code

pub record ApiError : Type 0 where
  pub code : Code
  pub status_code : ℕ

-- A result and an error, of which Go functions return one.
pub data Result {ℓ} (T : Type ℓ) : Type ℓ where
  err : ApiError → Result T
  ok : T → Result T

abbrev pub validation_error {ℓ} : {T : Type ℓ} → Code → Result T
validation_error c = err (record { code = c; status_code = 400 })

abbrev pub datasource_error {ℓ} : {T : Type ℓ} → Code → Result T
datasource_error c = err (record { code = c; status_code = 200 })

pub Result-cases {ℓ} :
    {T : Type ℓ} (r : Result T) → ((e : ApiError) × (r ≡ err e)) ⊎ ((t : T) × (r ≡ ok t))
Result-cases (err e) = inl (e, refl)
Result-cases (ok t) = inr (t, refl)

pub ok-injective {ℓ} : {T : Type ℓ} {t u : T} → ok t ≡ ok u → t ≡ u
ok-injective same = cc

module _ {ℓ κ} {T : Type ℓ} {U : Type κ} where
  infixl 5 ◌>>=◌
  -- The rest of a function behind `if err != nil { return err }`.
  abbrev pub ◌>>=◌ : Result T → (T → Result U) → Result U
  err failed >>= next = err failed
  ok t >>= next = next t

  -- Both parts of a bind that succeeds have succeeded.
  pub >>=-eq-ok :
      (first : Result T) (next : T → Result U) (u : U)
      → (first >>= next) ≡ ok u
      → (t : T) × (first ≡ ok t) × (next t ≡ ok u)
  >>=-eq-ok (err failed) next u passed = cc
  >>=-eq-ok (ok t) next u passed = (t, refl, passed)

infixl 5 ◌>>◌
abbrev pub ◌>>◌ {ℓ} : {U : Type ℓ} → Result (Unit {0}) → Result U → Result U
check >> rest = check >>= λ _. rest

-- Both parts of a sequence of checks that passes have passed.
pub >>-eq-ok :
    (check rest : Result (Unit {0})) → (check >> rest) ≡ ok tt → (check ≡ ok tt) × (rest ≡ ok tt)
>>-eq-ok (err failed) rest passed = cc
>>-eq-ok (ok _) rest passed = (refl, passed)

module _ {ℓ} {T : Type ℓ} where
  -- Whatever the first yields, the second yields too.
  abbrev pub Refines : Result T → Result T → Type ℓ
  Refines x y = (t : T) → x ≡ ok t → y ≡ ok t

pub bind-Refines {ℓ κ} :
    {T : Type ℓ} {U : Type κ} {x y : Result T} {f g : T → Result U}
    → Refines x y
    → ((t : T) → Refines (f t) (g t))
    → Refines (x >>= f) (y >>= g)
bind-Refines {x} {y} {f} {g} first next u passed =
    let (t, e, rest) = >>=-eq-ok x f u passed in ap (λ r. r >>= g) (first t e) ∙ next t u rest
