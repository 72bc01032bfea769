-- ===== src/Middleware/AuthFailureLimiter/Bans.antt =====
-- When an address is banned, and what the other operations leave of a ban.
use mountain_king.Middleware.AuthFailureLimiter.{
  AuthFailureLimiter, store, is_banned, check, update, record_failure, kept, cleanup,
}
use mountain_king.Prelude.{
  ℕ, ◌+◌, ◌-◌, ◌≤◌, ◌<◌, ◌≡◌, ◌≢◌, refl, subst, ap, ◌∙◌, true, none, some, List, [], ◌∷◌, arith,
  Bytes, bytes_eq_iff, leb, length, All,
}

-- A failure of one address leaves every other address as it was, at every moment.
pub check-record_failure_ne :
    (afl : AuthFailureLimiter) (now later : ℕ) (ip other : Bytes)
    → other ≢ ip
    → check (record_failure afl now ip) later other ≡ check afl later other
unfolding check record_failure store
check-record_failure_ne afl now later ip other h = ground (arith, bytes_eq_iff other ip)

-- The cleanup takes away no ban that still holds: from its moment on every address is let through or
-- refused as it would be without it.
pub check-cleanup :
    (afl : AuthFailureLimiter) (now later : ℕ) (ip : Bytes)
    → now ≤ later
    → check (cleanup afl now) later ip ≡ check afl later ip
unfolding check cleanup is_banned kept
check-cleanup afl now later ip h = ground arith

-- Failures of one address at the given moments.
unfoldable pub fail_all : AuthFailureLimiter → List ℕ → Bytes → AuthFailureLimiter
fail_all afl [] ip = afl
fail_all afl (now ∷ nows) ip = fail_all (record_failure afl now ip) nows ip

-- The failures so far are counted, and there is no ban.
abbrev Counted : AuthFailureLimiter → Bytes → ℕ → ℕ → Type 0
Counted afl ip first n =
    afl.failures ip ≡ some (record { count = n; first_at = first; banned_at = none })

Counted-record_failure :
    (afl : AuthFailureLimiter) (ip : Bytes) (first n now : ℕ)
    → Counted afl ip first n
    → now - first ≤ afl.window
    → n + 1 < afl.threshold
    → Counted (record_failure afl now ip) ip first (n + 1)
unfolding record_failure store update is_banned
Counted-record_failure afl ip first n now c w t = ground (arith, bytes_eq_iff ip ip)

Counted-fail_all :
    (nows : List ℕ) (afl : AuthFailureLimiter) (ip : Bytes) (first n : ℕ)
    → Counted afl ip first n
    → All (λ now. now - first ≤ afl.window) nows
    → n + length nows < afl.threshold
    → Counted (fail_all afl nows ip) ip first (n + length nows)
unfolding fail_all record_failure
Counted-fail_all [] afl ip first n c w t = ground arith
Counted-fail_all (now ∷ nows) afl ip first n c (w, ws) t =
    subst (Counted (fail_all (record_failure afl now ip) nows ip) ip first) (omega arith) (
      Counted-fail_all nows (record_failure afl now ip) ip first (n + 1)
        (Counted-record_failure afl ip first n now c w (omega arith)) ws (omega arith))

fail_all-config :
    (nows : List ℕ) (afl : AuthFailureLimiter) (ip : Bytes)
    → ((fail_all afl nows ip).threshold ≡ afl.threshold)
      × ((fail_all afl nows ip).window ≡ afl.window)
      × ((fail_all afl nows ip).ban_dur ≡ afl.ban_dur)
unfolding fail_all record_failure
fail_all-config [] afl ip = (refl, refl, refl)
fail_all-config (now ∷ nows) afl ip = fail_all-config nows (record_failure afl now ip) ip

first-Counted :
    (afl : AuthFailureLimiter) (ip : Bytes) (first : ℕ)
    → afl.failures ip ≡ none
    → Counted (record_failure afl first ip) ip first 1
unfolding record_failure store
first-Counted afl ip first h = ground (arith, bytes_eq_iff ip ip)

check-Counted :
    (afl : AuthFailureLimiter) (ip : Bytes) (first n now : ℕ)
    → Counted afl ip first n
    → check afl now ip ≡ true
unfolding check is_banned
check-Counted afl ip first n now c = ground arith

check_at_threshold :
    (afl : AuthFailureLimiter) (ip : Bytes) (first n last now : ℕ)
    → Counted afl ip first n
    → last - first ≤ afl.window
    → afl.threshold ≤ n + 1
    → check (record_failure afl last ip) now ip ≡ leb afl.ban_dur (now - last)
unfolding check record_failure store update is_banned
check_at_threshold afl ip first n last now c w t = ground (arith, bytes_eq_iff ip ip)

fail_all-Counted :
    (afl : AuthFailureLimiter) (ip : Bytes) (first : ℕ) (nows : List ℕ)
    → afl.failures ip ≡ none
    → All (λ t. t - first ≤ afl.window) nows
    → length nows + 2 ≡ afl.threshold
    → Counted (fail_all afl (first ∷ nows) ip) ip first (1 + length nows)
unfolding fail_all record_failure
fail_all-Counted afl ip first nows h ws t =
    Counted-fail_all nows (record_failure afl first ip) ip first 1 (first-Counted afl ip first h) ws
      (omega arith)

-- An address with no failures before, that fails at `first` and then at moments within the window
-- from it, is let through as long as its failures are fewer than the threshold. The failure that
-- reaches the threshold, of at least two, bans it until the ban duration is over, and no longer.
pub check-fail_all :
    (afl : AuthFailureLimiter) (ip : Bytes) (first : ℕ) (nows : List ℕ) (last now : ℕ)
    → afl.failures ip ≡ none
    → All (λ t. t - first ≤ afl.window) nows
    → last - first ≤ afl.window
    → length nows + 2 ≡ afl.threshold
    → (check (fail_all afl (first ∷ nows) ip) now ip ≡ true)
      × (check (record_failure (fail_all afl (first ∷ nows) ip) last ip) now ip
          ≡ leb afl.ban_dur (now - last))
check-fail_all afl ip first nows last now h ws w t =
    let counted = fail_all-Counted afl ip first nows h ws t in
    let (t', w', b') = fail_all-config (first ∷ nows) afl ip in
    (
      check-Counted _ ip first (1 + length nows) now counted,
      check_at_threshold (fail_all afl (first ∷ nows) ip) ip first (1 + length nows) last now
            counted (omega arith) (omega arith)
          ∙ ap (λ d. leb d (now - last)) b',
    )
