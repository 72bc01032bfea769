-- ===== src/RateLimit/Local/Isolated.antt =====
-- One client is not touched by the others, and the memory of all of them is bounded.
use mountain_king.Prelude.{
  ℕ, ◌+◌, ◌*◌, ◌≡◌, ◌≤◌, refl, ap, ◌∙◌, sym, false, Bool-cases, inl, inr, Option, none, some, List,
  [], ◌∷◌, Bytes, bytes_eq, length, All, arith,
}
use mountain_king.Prelude.Int.{ℤ, pos, ltb_ℤ, pos_part}
use mountain_king.RateLimit.Local.{
  Buckets, LimiterEntry, KeyedRateLimiter, new_keyed_rate_limiter, use_entry, allow_found, allow,
  drop_stale, cleanup, Event, asked, cleaned, step, run,
}
use mountain_king.Table.{Table, find, find-put}
use mountain_king.RateLimit.Local.Bounded.{IsBounded, step-IsBounded, run-IsBounded}

-- A request of another client, or a round of the cleanup before the entry of this one is stale.
abbrev pub IsElsewhere : Bytes → ℕ → Event → Type 0
IsElsewhere key stale (asked k count now) = bytes_eq k key ≡ false
IsElsewhere key stale (cleaned now) = now ≤ stale

module _ {L : Type 0} where
  find-drop_stale :
      (key : Bytes) (now interval : ℕ) (e : LimiterEntry L) (t : Table (LimiterEntry L))
      → find key t ≡ some e
      → now ≤ e.last_seen + interval
      → find key (drop_stale now interval t) ≡ some e
  unfolding find drop_stale
  find-drop_stale key now interval e [] h fresh = cc
  find-drop_stale key now interval e ((k, e') ∷ t) h fresh =
      let tail = find-drop_stale key now interval e t in ground arith

module _ {L : Type 0} (buckets : Buckets L) (origin : KeyedRateLimiter L) where
  find-use_entry :
      (key k : Bytes) (count : ℤ) (now : ℕ) (l : L) (krl : KeyedRateLimiter L)
      → bytes_eq k key ≡ false
      → find key (use_entry buckets k count now l krl).1.limiters ≡ find key krl.limiters
  unfolding use_entry
  find-use_entry key k count now l krl other =
      find-put key k (record { limiter = (buckets.allow_n now count l).1; last_seen = now })
        krl.limiters
      ∙ rw other refl

  find-allow_found :
      (key k : Bytes) (count : ℤ) (now : ℕ) (krl : KeyedRateLimiter L)
      (found : Option (LimiterEntry L))
      → bytes_eq k key ≡ false
      → find key (allow_found buckets k count now krl found).1.limiters ≡ find key krl.limiters
  unfolding allow_found
  find-allow_found key k count now krl none other =
      elim (Bool-cases (ltb_ℤ (pos (length krl.limiters)) krl.max_entries)) [
        | inl free ↦
            rw free
              (find-use_entry key k count now (buckets.fresh krl.burst krl.window_size) krl other)
        | inr full ↦ rw full refl
      ]
  find-allow_found key k count now krl (some entry) other =
      find-use_entry key k count now entry.limiter krl other

  find-step :
      (key : Bytes) (e : LimiterEntry L) (event : Event) (krl : KeyedRateLimiter L)
      → IsBounded origin krl
      → find key krl.limiters ≡ some e
      → IsElsewhere key (e.last_seen + origin.cleanup_interval) event
      → find key (step buckets event krl).limiters ≡ some e
  unfolding step allow cleanup
  find-step key e (asked k count now) krl b h other =
      find-allow_found key k count now krl (find k krl.limiters) other ∙ h
  find-step key e (cleaned now) krl b h early =
      let same = b.spaced in
      find-drop_stale key now krl.cleanup_interval e krl.limiters h (omega arith)

  find-run :
      (key : Bytes) (e : LimiterEntry L) (events : List Event) (krl : KeyedRateLimiter L)
      → IsBounded origin krl
      → find key krl.limiters ≡ some e
      → All (IsElsewhere key (e.last_seen + origin.cleanup_interval)) events
      → find key (run buckets events krl).limiters ≡ some e
  find-run key e [] krl b h done = h
  find-run key e (event ∷ events) krl b h (here, rest) =
      find-run key e events (step buckets event krl) (step-IsBounded buckets origin event krl b)
        (find-step key e event krl b h here) rest

  use_entry-same :
      (key : Bytes) (count : ℤ) (now : ℕ) (l : L) (krl krl' : KeyedRateLimiter L)
      → IsBounded origin krl
      → IsBounded origin krl'
      → (use_entry buckets key count now l krl).0 ≡ (use_entry buckets key count now l krl').0
  unfolding use_entry
  use_entry-same key count now l krl krl' b b' =
      let burst = b.burst ∙ sym b'.burst in let window = b.window ∙ sym b'.window in cc

module _ {L : Type 0} (buckets : Buckets L) (requests_per_window : ℤ) (window_size : ℕ)
    (max_entries : ℤ) where
  abbrev start : KeyedRateLimiter L
  start = new_keyed_rate_limiter requests_per_window window_size max_entries

  start-IsBounded : IsBounded start start
  start-IsBounded = record {
    size = omega arith;
    entries = refl;
    spaced = refl;
    burst = refl;
    window = refl;
  }

  -- After any requests and rounds of the cleanup there are no more entries than allowed. A client that
  -- has an entry gets the same answer after whatever others ask, as long as the cleanup does not run
  -- later than two windows after its last request.
  pub allow-isolated :
      (before others : List Event) (key : Bytes) (e : LimiterEntry L) (count : ℤ) (now : ℕ)
      → find key (run buckets before start).limiters ≡ some e
      → All (IsElsewhere key (e.last_seen + 2 * window_size)) others
      → ((allow buckets key count now (run buckets others (run buckets before start))).0
          ≡ (allow buckets key count now (run buckets before start)).0)
        × (length (run buckets others (run buckets before start)).limiters ≤ pos_part max_entries)
  unfolding allow allow_found
  allow-isolated before others key e count now h elsewhere =
      let s : KeyedRateLimiter L = run buckets before start in
      let b = run-IsBounded buckets start before start start-IsBounded in
      let b' = run-IsBounded buckets start others s b in
      let kept = find-run buckets start key e others s b h elsewhere in
      (
        ap
              (λ (f : Option (LimiterEntry L)).
                (allow_found buckets key count now (run buckets others s) f).0)
              kept
            ∙ use_entry-same buckets start key count now e.limiter (run buckets others s) s b' b
            ∙ sym
                (ap (λ (f : Option (LimiterEntry L)). (allow_found buckets key count now s f).0) h),
        b'.size,
      )
