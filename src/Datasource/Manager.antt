-- ===== src/Datasource/Manager.antt =====
-- internal/datasource/manager.go, and a round of the loop of reconnect.go. A data source is a value of
-- `D`; what its methods come to is a parameter of the operation that calls them. The lock is held for
-- each change of the maps.
pub mod Availability
mod Tests
use mountain_king.Errors.{Result, ok, ◌>>=◌, datasource_error, err_datasource_unavailable}
use mountain_king.Prelude.{
  ℕ, zero, suc, ◌+◌, Bool, true, false, not, ◌&&◌, Option, none, some, List, [], ◌∷◌, ◌++◌, Bytes,
  if◌then◌else◌,
}
use mountain_king.Table.{Table, find, put}

pub record DataSourceStatus : Type 0 where
  pub available : Bool
  pub has_error : Bool
  pub reconnect_count : ℕ

pub record DataSourceManager (D : Type 0) : Type 0 where
  pub datasources : Table D
  pub status : Table DataSourceStatus

pub record SourceConfig : Type 0 where
  pub name : Bytes
  pub type_name : Bytes
  pub enabled : Bool

abbrev pub fresh_status : Bool → DataSourceStatus
fresh_status connected = record {
  available = connected;
  has_error = not connected;
  reconnect_count = 0;
}

abbrev pub is_available : Option DataSourceStatus → Bool
is_available none = true
is_available (some st) = st.available

-- The status after a health check, where there is one.
unfoldable pub update_status : Bytes → Bool → Table DataSourceStatus → Table DataSourceStatus
unfolding find put
update_status name healthy status = elim (find name status) [
  | none ↦ status
  | some st ↦ put name (record st { available = healthy; has_error = not healthy }) status
]

module _ {D : Type 0} where
  -- A data source that a factory made, and whether `Connect` succeeded; the name comes back if a
  -- reconnect loop is started.
  unfoldable pub add_source :
      Bytes → D → Bool → DataSourceManager D → List Bytes × DataSourceManager D
  unfolding put
  add_source name d connected m = (
    if connected then [] else name ∷ [],
    record {
      datasources = put name d m.datasources;
      status = put name (fresh_status connected) m.status;
    },
  )

  -- `Init`: the adapter types that are registered, each with its factory, and `Connect`.
  unfoldable pub init :
      (Bytes → Option (SourceConfig → Option D))
      → (D → Bool)
      → List SourceConfig
      → DataSourceManager D
      → List Bytes × DataSourceManager D
  unfolding add_source
  init registry connect [] m = ([], m)
  init registry connect (cfg ∷ cfgs) m =
      let skipped = init registry connect cfgs m in
      if not cfg.enabled then skipped else elim (registry cfg.type_name) [
        | none ↦ skipped
        | some factory ↦ elim (factory cfg) [
          | none ↦ skipped
          | some d ↦
              let (started, m') = add_source cfg.name d (connect d) m in
              let (more, m'') = init registry connect cfgs m' in (started ++ more, m'')
        ]
      ]

  unfoldable pub get : Bytes → DataSourceManager D → Result D
  unfolding find
  get name m = elim (find name m.datasources) [
    | none ↦ datasource_error err_datasource_unavailable
    | some d ↦
        if is_available (find name m.status)
        then ok d
        else datasource_error err_datasource_unavailable
  ]

  unfoldable pub get_writable : (D → Bool) → Bytes → DataSourceManager D → Result D
  unfolding get
  get_writable is_writable name m = do
    d ← get name m
    if is_writable d then ok d else datasource_error err_datasource_unavailable

  unfoldable pub check_sources :
      (D → Bool) → Table D → Table DataSourceStatus → List (Bytes × Bool) × Table DataSourceStatus
  unfolding update_status
  check_sources health [] status = ([], status)
  check_sources health ((name, d) ∷ ds) status =
      let (results, status') = check_sources health ds (update_status name (health d) status) in
      ((name, health d) ∷ results, status')

  unfoldable pub health_check_all :
      (D → Bool) → DataSourceManager D → List (Bytes × Bool) × DataSourceManager D
  unfolding check_sources
  health_check_all health m =
      let (results, status) = check_sources health m.datasources m.status in
      (results, record m { status = status })

  -- What a round of the reconnect loop does to the status, after `Connect`.
  unfoldable pub reconnected : Bytes → Bool → DataSourceManager D → DataSourceManager D
  unfolding find put
  reconnected name connected m = elim (find name m.status) [
    | none ↦ m
    | some st ↦
        if connected
        then record m {
          status =
              put name (record { available = true; has_error = false; reconnect_count = 0 })
                m.status;
        }
        else record m {
          status =
              put name (record st { has_error = true; reconnect_count = st.reconnect_count + 1 })
                m.status;
        }
  ]

  -- `CloseAll`: the names whose `Close` failed.
  unfoldable pub close_all : (D → Bool) → Table D → List Bytes
  close_all close [] = []
  close_all close ((name, d) ∷ ds) =
      let rest = close_all close ds in if close d then rest else name ∷ rest
