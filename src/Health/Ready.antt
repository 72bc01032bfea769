-- ===== src/Health/Ready.antt =====
-- Readiness is that some data source is served.
use mountain_king.Datasource.Manager.{
  DataSourceStatus, DataSourceManager, get, health_check_all, check_sources, update_status,
}
use mountain_king.Datasource.Manager.Availability.{AreNamed, get-health_check_all}
use mountain_king.Errors.{ok, datasource_error, err_datasource_unavailable}
use mountain_king.Health.{readiness_of, readiness_check}
use mountain_king.Prelude.{
  subst, sym, ◌≡◌, ◌↔◌, refl, ap, ◌∙◌, Bool, true, ◌||◌, none, some, List, [], ◌∷◌, Bytes, arith,
  any, bytes_eq, bytes_eq_iff, if◌then◌else◌, Option-cases, inl, inr, Bool-cases,
}
use mountain_king.Table.{Table, find}

module _ {D : Type 0} (health : D → Bool) where
  -- A data source that is served under its name.
  abbrev pub IsServed : DataSourceManager D → Type 0
  IsServed m = (name : Bytes) × (d : D) × (get name m ≡ ok d)

  any-check_sources :
      (ds : Table D) (status : Table DataSourceStatus)
      → any (λ r. r.1) (check_sources health ds status).0 ≡ any (λ e. health e.1) ds
  unfolding check_sources
  any-check_sources [] status = refl
  any-check_sources ((name, d) ∷ ds) status =
      ap (λ b. health d || b) (any-check_sources ds (update_status name (health d) status))

  any-find :
      (ds : Table D)
      → AreNamed ds
      → any (λ e. health e.1) ds ≡ true
      → (name : Bytes) × (d : D) × (find name ds ≡ some d) × (health d ≡ true)
  unfolding find
  any-find [] h e = cc
  any-find ((name, d) ∷ ds) (new, h) e = elim (Bool-cases (health d)) [
    | inl healthy ↦ (name, d, ground (arith, bytes_eq_iff name name), healthy)
    | inr ill ↦
        let (q, d', found, healthy) = any-find ds h (ground arith) in
        (
          q,
          d',
          elim (Bool-cases (bytes_eq name q)) [
            | inl same ↦
                let e : name ≡ q = ground (arith, bytes_eq_iff name q) in
                let absent : find q ds ≡ none = subst (λ n. find n ds ≡ none) e new in cc
            | inr other ↦ rw other found
          ],
          healthy,
        )
  ]

  find-any :
      (ds : Table D) (name : Bytes) (d : D)
      → find name ds ≡ some d
      → health d ≡ true
      → any (λ e. health e.1) ds ≡ true
  unfolding find
  find-any [] name d h healthy = cc
  find-any ((k, d') ∷ ds) name d h healthy = elim (Bool-cases (bytes_eq k name)) [
    | inl same ↦
        let e : some d' ≡ some d = ground arith in let e' : d' ≡ d = cc in rw (e', healthy) refl
    | inr other ↦ let rest = find-any ds name d (ground arith) healthy in ground arith
  ]

  served_of :
      (m : DataSourceManager D) (name : Bytes) (st : DataSourceStatus) (d : D)
      → AreNamed m.datasources
      → find name m.status ≡ some st
      → find name m.datasources ≡ some d
      → get name (health_check_all health m).1
        ≡ (if health d then ok d else datasource_error err_datasource_unavailable)
  served_of m name st d h known found =
      get-health_check_all health m name st h known ∙ rw found refl

  unserved :
      (m : DataSourceManager D) (name : Bytes)
      → find name m.datasources ≡ none
      → get name (health_check_all health m).1 ≡ datasource_error err_datasource_unavailable
  unfolding get health_check_all
  unserved m name missing = rw missing refl

  healthy_if_served :
      (m : DataSourceManager D) (name : Bytes) (d served : D)
      → (if health d then ok d else datasource_error err_datasource_unavailable) ≡ ok served
      → health d ≡ true
  healthy_if_served m name d served h = elim (Bool-cases (health d)) [
    | inl healthy ↦ healthy
    | inr ill ↦
        let e : datasource_error err_datasource_unavailable ≡ ok served = sym (rw ill refl) ∙ h in
        cc
  ]

  status_code-readiness_of :
      (results : List (Bytes × Bool))
      → ((readiness_of results).status_code ≡ 200) ↔ (any (λ r. r.1) results ≡ true)
  unfolding readiness_of
  status_code-readiness_of results = elim (Bool-cases (any (λ r. r.1) results)) [
    | inl healthy ↦ (λ h. healthy, λ h. rw healthy refl)
    | inr ill ↦ (λ h. ground arith, λ h. cc)
  ]

  -- The readiness probe answers 200 exactly if some data source can be served afterwards, where no two
  -- data sources have one name and each has a status.
  pub readiness_check-IsServed :
      (m : DataSourceManager D)
      → AreNamed m.datasources
      → ((name : Bytes)
          → (d : D) → find name m.datasources ≡ some d
          → (st : DataSourceStatus) × (find name m.status ≡ some st))
      → ((readiness_check health m).0.status_code ≡ 200) ↔ IsServed (readiness_check health m).1
  unfolding readiness_check
  readiness_check-IsServed m h known =
      let (some_healthy, ready) = status_code-readiness_of (health_check_all health m).0 in
      let same : any (λ r. r.1) (health_check_all health m).0
          ≡ any (λ e. health e.1) m.datasources =
        any-check_sources m.datasources m.status in
      (
        λ code.
            let (name, d, found, healthy) =
              any-find m.datasources h (sym same ∙ some_healthy code) in
            let (st, has_status) = known name d found in
            (name, d, served_of m name st d h has_status found ∙ rw healthy refl),
        λ (name, d, served). elim (Option-cases (find name m.datasources)) [
          | inl missing ↦ let e = sym (unserved m name missing) ∙ served in cc
          | inr (d', found) ↦
              let (st, has_status) = known name d' found in
              let e = sym (served_of m name st d' h has_status found) ∙ served in
              ready (same ∙ find-any m.datasources name d' found (healthy_if_served m name d' d e))
        ],
      )
