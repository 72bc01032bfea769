-- ===== src/Datasource/Manager/Availability.antt =====
-- Which data sources a health check leaves available.
use mountain_king.Datasource.Manager.{
  DataSourceStatus, DataSourceManager, get, update_status, check_sources, health_check_all,
  is_available,
}
use mountain_king.Errors.{ok, datasource_error, err_datasource_unavailable}
use mountain_king.Prelude.{
  subst, ◌≡◌, refl, ap, ◌∙◌, Bool, not, Option, none, some, [], ◌∷◌, Bytes, arith, bytes_eq,
  bytes_eq_iff, if◌then◌else◌, Option-cases, inl, inr, Bool-cases,
}
use mountain_king.Table.{Table, find, find-put}

-- No name stands twice.
abbrev pub AreNamed : {D : Type 0} → Table D → Type 0
AreNamed [] = Unit
AreNamed ((name, d) ∷ ds) = (find name ds ≡ none) × AreNamed ds

-- The status that a check leaves.
abbrev pub checked_status : Bool → Option DataSourceStatus → Option DataSourceStatus
checked_status healthy none = none
checked_status healthy (some st) = some (record st { available = healthy; has_error = not healthy })

find-update_status :
    (q name : Bytes) (healthy : Bool) (status : Table DataSourceStatus)
    → find q (update_status name healthy status)
      ≡ (if bytes_eq name q then checked_status healthy (find name status) else find q status)
unfolding update_status
find-update_status q name healthy status = elim (Option-cases (find name status)) [
  | inl missing ↦ ground (arith, bytes_eq_iff name q)
  | inr (st, found) ↦ ground (
    arith,
    bytes_eq_iff name q,
    find-put q name (record st { available = healthy; has_error = not healthy }) status,
  )
]

-- The status of a name after all the checks.
abbrev pub after_check :
    {D : Type 0} → (D → Bool) → Option D → Option DataSourceStatus → Option DataSourceStatus
after_check health none st = st
after_check health (some d) st = checked_status (health d) st

find-check_sources :
    {D : Type 0} (health : D → Bool) (ds : Table D) (status : Table DataSourceStatus) (q : Bytes)
    → AreNamed ds
    → find q (check_sources health ds status).1 ≡ after_check health (find q ds) (find q status)
unfolding check_sources find
find-check_sources health [] status q h = refl
find-check_sources health ((name, d) ∷ ds) status q (p, h) =
    let updated = update_status name (health d) status in
    let later = find-check_sources health ds updated q h in
    let here = find-update_status q name (health d) status in
    elim (Bool-cases (bytes_eq name q)) [
      | inl same ↦
          let e : name ≡ q = ground (arith, bytes_eq_iff name q) in
          let absent : find q ds ≡ none = subst (λ n. find n ds ≡ none) e p in
          later ∙ rw (absent, here, same) (ap (λ n. checked_status (health d) (find n status)) e)
      | inr other ↦ later ∙ rw (here, other) refl
    ]

-- After a health check of all data sources, a name that is registered and has a status is served
-- exactly if its data source was healthy, and a name that is not registered never is.
pub get-health_check_all :
    {D : Type 0} (health : D → Bool) (m : DataSourceManager D) (name : Bytes)
    (st : DataSourceStatus)
    → AreNamed m.datasources
    → find name m.status ≡ some st
    → get name (health_check_all health m).1 ≡ (elim (find name m.datasources) [
      | none ↦ datasource_error err_datasource_unavailable
      | some d ↦ if health d then ok d else datasource_error err_datasource_unavailable
    ])
unfolding get health_check_all
get-health_check_all health m name st h s =
    let checked = find-check_sources health m.datasources m.status name h in
    elim (Option-cases (find name m.datasources)) [
      | inl missing ↦ rw (missing) refl
      | inr (d, found) ↦
          let known : find name (check_sources health m.datasources m.status).1
              ≡ checked_status (health d) (some st) =
            checked ∙ rw (found, s) refl in
          simp (found) (
            ap
              (λ (o : Option DataSourceStatus).
                if is_available o then ok d else datasource_error err_datasource_unavailable)
              known)
    ]
