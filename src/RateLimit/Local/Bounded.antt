-- ===== src/RateLimit/Local/Bounded.antt =====
-- The memory of the limiter is bounded, and no call changes its settings.
use mountain_king.Prelude.{
  ℕ, suc, subst, ◌≡◌, ◌≤◌, refl, ap, true, Bool-cases, inl, inr, Option, none, some, List, [], ◌∷◌,
  Bytes, bytes_eq, length, arith,
}
use mountain_king.Prelude.Int.{ℤ, pos, ltb_ℤ, pos_part}
use mountain_king.RateLimit.Local.{
  Buckets, LimiterEntry, KeyedRateLimiter, use_entry, allow_found, allow, drop_stale, cleanup,
  Event, asked, cleaned, step, run,
}
use mountain_king.Table.{Table, find, put}

length-put-some :
    {A : Type 0} (key : Bytes) (a b : A) (t : Table A)
    → find key t ≡ some b
    → length (put key a t) ≡ length t
unfolding find put
length-put-some key a b [] h = cc
length-put-some key a b ((k, c) ∷ t) h = elim (Bool-cases (bytes_eq k key)) [
  | inl same ↦ rw same refl
  | inr other ↦ rw other (ap suc (length-put-some key a b t (ground arith)))
]

length-put :
    {A : Type 0} (key : Bytes) (a : A) (t : Table A) → length (put key a t) ≤ suc (length t)
unfolding put
length-put key a [] = omega arith
length-put key a ((k, b) ∷ t) =
    let tail = length-put key a t in
    elim (Bool-cases (bytes_eq k key)) [
      | inl same ↦ rw same (omega arith)
      | inr other ↦ rw other (omega arith)
    ]

module _ {L : Type 0} where
  length-drop_stale :
      (now interval : ℕ) (t : Table (LimiterEntry L))
      → length (drop_stale now interval t) ≤ length t
  unfolding drop_stale
  length-drop_stale now interval [] = omega arith
  length-drop_stale now interval ((k, e) ∷ t) =
      let tail = length-drop_stale now interval t in ground arith

  -- The settings of a limiter, and its size within their bound.
  pub record IsBounded (origin krl : KeyedRateLimiter L) : Type 0 where
    pub size : length krl.limiters ≤ pos_part origin.max_entries
    pub entries : krl.max_entries ≡ origin.max_entries
    pub spaced : krl.cleanup_interval ≡ origin.cleanup_interval
    pub burst : krl.burst ≡ origin.burst
    pub window : krl.window_size ≡ origin.window_size

  room :
      (origin krl : KeyedRateLimiter L)
      → IsBounded origin krl
      → ltb_ℤ (pos (length krl.limiters)) krl.max_entries ≡ true
      → suc (length krl.limiters) ≤ pos_part origin.max_entries
  room origin krl b h =
      let same = b.entries in
      let here = subst (λ m. ltb_ℤ (pos (length krl.limiters)) m ≡ true) same h in ground arith

module _ {L : Type 0} (buckets : Buckets L) (origin : KeyedRateLimiter L) where
  use_entry-IsBounded :
      (key : Bytes) (count : ℤ) (now : ℕ) (l : L) (krl : KeyedRateLimiter L)
      → ((e : LimiterEntry L) → length (put key e krl.limiters) ≤ pos_part origin.max_entries)
      → IsBounded origin krl
      → IsBounded origin (use_entry buckets key count now l krl).1
  unfolding use_entry
  use_entry-IsBounded key count now l krl h b = record {
    size = h (record { limiter = (buckets.allow_n now count l).1; last_seen = now });
    entries = b.entries;
    spaced = b.spaced;
    burst = b.burst;
    window = b.window;
  }

  allow_found-IsBounded :
      (key : Bytes) (count : ℤ) (now : ℕ) (krl : KeyedRateLimiter L)
      (found : Option (LimiterEntry L))
      → find key krl.limiters ≡ found
      → IsBounded origin krl
      → IsBounded origin (allow_found buckets key count now krl found).1
  unfolding allow_found
  allow_found-IsBounded key count now krl none new b =
      elim (Bool-cases (ltb_ℤ (pos (length krl.limiters)) krl.max_entries)) [
        | inl free ↦
            let left = room origin krl b free in
            rw free (
              use_entry-IsBounded key count now (buckets.fresh krl.burst krl.window_size) krl
                (λ e. let most = length-put key e krl.limiters in omega arith) b)
        | inr full ↦ rw full b
      ]
  allow_found-IsBounded key count now krl (some entry) old b =
      let size = b.size in
      use_entry-IsBounded key count now entry.limiter krl
        (λ e. let same = length-put-some key e entry krl.limiters old in omega arith) b

  pub step-IsBounded :
      (event : Event) (krl : KeyedRateLimiter L)
      → IsBounded origin krl
      → IsBounded origin (step buckets event krl)
  unfolding step allow cleanup
  step-IsBounded (asked key count now) krl b =
      allow_found-IsBounded key count now krl (find key krl.limiters) refl b
  step-IsBounded (cleaned now) krl b =
      let size = b.size in
      let less = length-drop_stale now krl.cleanup_interval krl.limiters in
      record {
        size = omega arith;
        entries = b.entries;
        spaced = b.spaced;
        burst = b.burst;
        window = b.window;
      }

  pub run-IsBounded :
      (events : List Event) (krl : KeyedRateLimiter L)
      → IsBounded origin krl
      → IsBounded origin (run buckets events krl)
  run-IsBounded [] krl b = b
  run-IsBounded (event ∷ events) krl b =
      run-IsBounded events (step buckets event krl) (step-IsBounded event krl b)
