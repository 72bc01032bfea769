-- ===== src/Health/Tests.antt =====
-- A manager of one data source, checked twice.
use mountain_king.Datasource.Manager.{DataSourceStatus, DataSourceManager, fresh_status}
use mountain_king.Health.{readiness_check, liveness_check, register_component}
use mountain_king.Health.Ready.{IsServed, readiness_check-IsServed}
use mountain_king.Prelude.{
  ◌≡◌, ◌↔◌, refl, Bool, true, false, Bool-cases, inl, inr, none, some, [], ◌∷◌, Bytes, codes,
  bytes_eq, arith,
}
use mountain_king.Table.{find}

abbrev manager : DataSourceManager Bool
manager = record {
  datasources = (codes "a", true) ∷ [];
  status = (codes "a", fresh_status true) ∷ [];
}

degraded_by_one :
    (liveness_check (register_component (codes "x") false ((codes "y", true) ∷ []))).status_code
    ≡ 503
unfolding liveness_check register_component bytes_eq
degraded_by_one = refl

known :
    (name : Bytes) (d : Bool)
    → find name manager.datasources ≡ some d
    → (st : DataSourceStatus) × (find name manager.status ≡ some st)
unfolding find
known name d h = elim (Bool-cases (bytes_eq (codes "a") name)) [
  | inl same ↦ (fresh_status true, rw same refl)
  | inr other ↦ let e : none ≡ some d = ground arith in cc
]

readiness_check-IsServed_example :
    ((readiness_check (λ (d : Bool). d) manager).0.status_code ≡ 200)
    ↔ IsServed (λ (d : Bool). d) (readiness_check (λ (d : Bool). d) manager).1
unfolding find
readiness_check-IsServed_example =
    readiness_check-IsServed (λ (d : Bool). d) manager (refl, tt) known
