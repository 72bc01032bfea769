-- ===== src/Middleware/AuthFailureLimiter.antt =====
-- internal/middleware/auth_failure_limiter.go: the failures of authentication for each client address.
-- A moment is a number of nanoseconds, and an operation takes the moment `now` of its call.
mod Bans
pub mod ClientIp
mod Tests
use mountain_king.Prelude.{
  ℕ, ◌+◌, ◌-◌, Bool, true, false, not, Option, none, some, Bytes, ltb, leb, bytes_eq, if◌then◌else◌,
}

pub record FailureRecord : Type 0 where
  pub count : ℕ
  pub first_at : ℕ
  pub banned_at : Option ℕ

pub record AuthFailureLimiter : Type 0 where
  pub failures : Bytes → Option FailureRecord
  pub threshold : ℕ
  pub window : ℕ
  pub ban_dur : ℕ

-- `afl.failures[ip] = rec`.
unfoldable pub store :
    (Bytes → Option FailureRecord) → Bytes → FailureRecord → Bytes → Option FailureRecord
store failures ip rec = λ ip'. if bytes_eq ip' ip then some rec else failures ip'

-- `rec.bannedAt != nil && time.Since(*rec.bannedAt) < afl.banDur`.
unfoldable pub is_banned : ℕ → ℕ → Option ℕ → Bool
is_banned ban_dur now none = false
is_banned ban_dur now (some at) = ltb (now - at) ban_dur

unfoldable pub check : AuthFailureLimiter → ℕ → Bytes → Bool
unfolding is_banned
check afl now ip = elim (afl.failures ip) [
  | none ↦ true
  | some rec ↦ not (is_banned afl.ban_dur now rec.banned_at)
]

unfoldable pub update : AuthFailureLimiter → ℕ → FailureRecord → FailureRecord
unfolding is_banned
update afl now rec =
    if is_banned afl.ban_dur now rec.banned_at
    then rec
    else if ltb afl.window (now - rec.first_at)
    then record rec { count = 1; first_at = now; banned_at = none }
    else if leb afl.threshold (rec.count + 1)
    then record rec { count = rec.count + 1; banned_at = some now }
    else record rec { count = rec.count + 1 }

unfoldable pub record_failure : AuthFailureLimiter → ℕ → Bytes → AuthFailureLimiter
unfolding store update
record_failure afl now ip = record afl {
  failures = store afl.failures ip (elim (afl.failures ip) [
    | none ↦ record { count = 1; first_at = now; banned_at = none }
    | some rec ↦ update afl now rec
  ]);
}

-- What `cleanup` leaves of one entry.
unfoldable pub kept : AuthFailureLimiter → ℕ → FailureRecord → Option FailureRecord
kept afl now rec = elim rec.banned_at [
  | some at ↦ if leb afl.ban_dur (now - at) then none else some rec
  | none ↦ if leb afl.window (now - rec.first_at) then none else some rec
]

unfoldable pub cleanup : AuthFailureLimiter → ℕ → AuthFailureLimiter
unfolding kept
cleanup afl now = record afl {
  failures = λ ip. elim (afl.failures ip) [ none ↦ none | some rec ↦ kept afl now rec ];
}
