-- ===== src/Datasource/Manager/Tests.antt =====
-- Data sources that are checked.
use mountain_king.Datasource.Manager.{
  DataSourceManager, SourceConfig, fresh_status, init, get, health_check_all, reconnected,
}
use mountain_king.Errors.{ok}
use mountain_king.Prelude.{
  ◌≡◌, refl, Bool, true, false, none, some, List, [], ◌∷◌, codes, bytes_eq, if◌then◌else◌,
}

-- A data source is whether it can be reached.
abbrev configs : List SourceConfig
configs =
    record { name = codes "a"; type_name = codes "sr"; enabled = true }
    ∷ record { name = codes "b"; type_name = codes "sr"; enabled = false }
    ∷ record { name = codes "c"; type_name = codes "ch"; enabled = true }
    ∷ []

abbrev manager : DataSourceManager Bool
manager = record {
  datasources = (codes "a", true) ∷ [];
  status = (codes "a", fresh_status true) ∷ [];
}

starts :
    init
      (λ t. if bytes_eq t (codes "sr") then some (λ cfg. some true) else none)
      (λ d. d)
      configs
      (record { datasources = []; status = [] })
    ≡ ([], manager)
unfolding init bytes_eq
starts = refl

recovers :
    get (codes "a") (reconnected (codes "a") true (health_check_all (λ d. false) manager).1)
    ≡ ok true
unfolding get health_check_all reconnected bytes_eq
recovers = refl
