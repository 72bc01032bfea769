-- ===== src/Clickhouse/Adapter/Connect.antt =====
-- internal/adapter/clickhouse/adapter.go: the bounds of the pool, the address of the database, and what
-- of it is logged.
use mountain_king.Datasource.Options.{
  Readers, or_else, get_int_option, get_duration_option, get_bool_option, get_string_option,
  text_field,
}
use mountain_king.Prelude.{
  ◌≡◌, refl, Bool, true, false, not, ◌&&◌, ◌||◌, Option, none, some, List, [], ◌∷◌, ◌++◌, Bytes,
  codes, bytes_eq, if◌then◌else◌, arith,
}
use mountain_king.Prelude.Decimal.{format_int}
use mountain_king.Prelude.Int.{ℤ, pos, negsuc, ltb_ℤ, leb_ℤ, ◌≤ℤ◌}
use mountain_king.Template.Params.{parse_int}
use mountain_king.Value.{
  Value, Fields, lookup_field, set_field, lookup_field-set_field, string, int, float64,
}

pub record Pool : Type 0 where
  pub max_open : ℤ
  pub max_idle : ℤ
  pub max_lifetime : ℤ
  pub max_idle_time : ℤ

abbrev at_least : ℤ → ℤ → ℤ
at_least low z = if ltb_ℤ z low then low else z

abbrev at_most : ℤ → ℤ → ℤ
at_most high z = if ltb_ℤ high z then high else z

-- The numbers that `Connect` hands to the pool.
unfoldable pub pool_of : Readers → Fields → Pool
unfolding get_int_option get_duration_option
pool_of rd options =
    let size = at_least (pos 1) (get_int_option rd options (codes "pool_size") (pos 10)) in
    record {
      max_open = size;
      max_idle =
          at_most size
            (at_least (pos 0) (get_int_option rd options (codes "max_idle_conns") (pos 5)));
      max_lifetime =
          at_least (pos 0)
            (get_duration_option rd options (codes "conn_max_lifetime") (pos 3_600_000_000_000));
      max_idle_time =
          at_least (pos 0)
            (get_duration_option rd options (codes "conn_max_idle_time") (pos 600_000_000_000));
    }

-- The port that is configured, and whether one is.
unfoldable pub configured_port : Readers → Option Value → ℤ × Bool
unfolding parse_int
configured_port rd none = (pos 9000, false)
configured_port rd (some (int z)) = (z, true)
configured_port rd (some (float64 bits)) = (rd.to_int bits, true)
configured_port rd (some (string s)) = (or_else (pos 9000) (parse_int s), true)
configured_port rd (some v) = (pos 9000, true)

-- The range of ports.
abbrev ranged : ℤ × Bool → ℤ × Bool
ranged (port, explicit) =
    if ltb_ℤ port (pos 1) || ltb_ℤ (pos 65535) port then (pos 9000, false) else (port, explicit)

abbrev secured : Bool → ℤ × Bool → ℤ
secured secure (port, explicit) =
    if secure && (not explicit || (leb_ℤ port (pos 9000) && leb_ℤ (pos 9000) port))
    then pos 9440
    else port

unfoldable pub port_of : Readers → Fields → Fields → ℤ
unfolding configured_port get_bool_option lookup_field
port_of rd connection options =
    secured (get_bool_option rd options (codes "secure") false)
      (ranged (configured_port rd (lookup_field (codes "port") connection)))

unfoldable pub text_or : Bytes → Fields → Bytes → Bytes
unfolding text_field bytes_eq
text_or def connection key = let s = text_field connection key in if bytes_eq s [] then def else s

-- The parameters behind the `?`, before `Encode` sorts them.
unfoldable pub dsn_params : Readers → Fields → List (Bytes × Bytes)
unfolding get_duration_option get_string_option get_bool_option bytes_eq
dsn_params rd options =
    let compress = get_string_option options (codes "compress") (codes "lz4") in
    (
      codes "dial_timeout",
      rd.format_duration
          (get_duration_option rd options (codes "connection_timeout") (pos 5_000_000_000)),
    )
    ∷ (
      codes "read_timeout",
      rd.format_duration
          (get_duration_option rd options (codes "read_timeout") (pos 30_000_000_000)),
    )
    ∷ ((if bytes_eq compress (codes "none") || bytes_eq compress []
          then []
          else (codes "compress", compress) ∷ [])
        ++ (if get_bool_option rd options (codes "secure") false
            then (codes "secure", codes "true") ∷ []
            else []))

unfoldable pub build_dsn : Readers → (List (Bytes × Bytes) → Bytes) → Fields → Fields → Bytes
unfolding port_of text_or text_field dsn_params format_int
build_dsn rd encode connection options =
    codes "clickhouse://"
    ++ (rd.path_escape (text_or (codes "default") connection (codes "username"))
        ++ (codes ":"
            ++ (rd.path_escape (text_field connection (codes "password"))
                ++ (codes "@"
                    ++ (text_or (codes "localhost") connection (codes "host")
                        ++ (codes ":"
                            ++ (format_int (port_of rd connection options)
                                ++ (codes "/"
                                    ++ (text_or (codes "default") connection (codes "database")
                                        ++ (codes "?" ++ encode (dsn_params rd options)))))))))))

unfoldable pub sanitized_dsn : Fields → Bytes
unfolding text_or
sanitized_dsn connection =
    codes "clickhouse://"
    ++ (text_or (codes "default") connection (codes "username")
        ++ (codes ":***@"
            ++ (text_or (codes "localhost") connection (codes "host")
                ++ (codes "/" ++ text_or (codes "default") connection (codes "database")))))

abbrev IsPort : ℤ → Type 0
IsPort port = (pos 1 ≤ℤ port) × (port ≤ℤ pos 65535)

ranged-IsPort : (z : ℤ) (explicit : Bool) → IsPort (ranged (z, explicit)).0
ranged-IsPort z explicit = (ground arith, ground arith)

secured-IsPort : (secure : Bool) (p : ℤ × Bool) → IsPort p.0 → IsPort (secured secure p)
secured-IsPort true (z, explicit) (low, high) = (ground arith, ground arith)
secured-IsPort false (z, explicit) h = h

port_of-IsPort :
    (rd : Readers) (connection options : Fields) → IsPort (port_of rd connection options)
unfolding port_of
port_of-IsPort rd connection options =
    let configured = configured_port rd (lookup_field (codes "port") connection) in
    secured-IsPort (get_bool_option rd options (codes "secure") false) (ranged configured)
      (ranged-IsPort configured.0 configured.1)

at_least-le : (low z : ℤ) → low ≤ℤ at_least low z
at_least-le low z = ground arith

idle_bounds :
    (size z : ℤ)
    → pos 1 ≤ℤ size
    → (pos 0 ≤ℤ at_most size (at_least (pos 0) z)) × (at_most size (at_least (pos 0) z) ≤ℤ size)
idle_bounds (pos n) (pos m) h = (ground arith, ground arith)
idle_bounds (pos n) (negsuc m) h = (ground arith, ground arith)
idle_bounds (negsuc n) z h = absurd (omega arith)

-- Whatever the options and the configured port hold, the pool has room for at least one connection, it
-- keeps between none and all of them idle, no time of it is negative, and the port is one of TCP.
pub pool_of_bounds :
    (rd : Readers) (connection options : Fields)
    → (pos 1 ≤ℤ (pool_of rd options).max_open)
      × (pos 0 ≤ℤ (pool_of rd options).max_idle)
      × ((pool_of rd options).max_idle ≤ℤ (pool_of rd options).max_open)
      × (pos 0 ≤ℤ (pool_of rd options).max_lifetime)
      × (pos 0 ≤ℤ (pool_of rd options).max_idle_time)
      × (pos 1 ≤ℤ port_of rd connection options)
      × (port_of rd connection options ≤ℤ pos 65535)
unfolding pool_of
pool_of_bounds rd connection options =
    let size = at_least-le (pos 1) (get_int_option rd options (codes "pool_size") (pos 10)) in
    let idle = idle_bounds _ (get_int_option rd options (codes "max_idle_conns") (pos 5)) size in
    let lifetime =
      get_duration_option rd options (codes "conn_max_lifetime") (pos 3_600_000_000_000) in
    let idle_time =
      get_duration_option rd options (codes "conn_max_idle_time") (pos 600_000_000_000) in
    let (low, high) = port_of-IsPort rd connection options in
    (size, idle.0, idle.1, at_least-le (pos 0) lifetime, at_least-le (pos 0) idle_time, low, high)

text_or-set_password :
    (def : Bytes) (connection : Fields) (key : Bytes) (password : Value)
    → bytes_eq (codes "password") key ≡ false
    → text_or def (set_field (codes "password") password connection) key
      ≡ text_or def connection key
unfolding text_or text_field
text_or-set_password def connection key password h =
    rw (lookup_field-set_field key (codes "password") password connection) (rw h refl)

-- The text of the connection that is logged does not depend on the password.
pub sanitized_dsn-set_field :
    (connection : Fields) (password : Value)
    → sanitized_dsn (set_field (codes "password") password connection) ≡ sanitized_dsn connection
unfolding sanitized_dsn bytes_eq
sanitized_dsn-set_field connection password =
    rw (text_or-set_password (codes "default") connection (codes "username") password refl) (
      rw (text_or-set_password (codes "localhost") connection (codes "host") password refl) (
        rw (text_or-set_password (codes "default") connection (codes "database") password refl)
          refl))
