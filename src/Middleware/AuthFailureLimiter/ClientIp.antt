-- ===== src/Middleware/AuthFailureLimiter/ClientIp.antt =====
-- internal/middleware/auth_failure_limiter.go: the address that a request is counted for. Parsing an
-- address and asking a trusted network for it are the package net's: `is_trusted` and `strip_port` are
-- parameters.
use mountain_king.Prelude.{
  ◌≡◌, ◌≢◌, refl, ap, ◌∙◌, Bool, true, false, not, ◌||◌, List, [], ◌∷◌, ◌++◌, arith, ℕ, Bytes, ◌==◌,
  if◌then◌else◌, split, split-append, split_lacking, All, reverse, reverse-append, bytes_eq,
  bytes_eq_iff, ◌⊎◌, inl,
}

-- `unicode.IsSpace` on ASCII, and `strings.TrimSpace`.
unfoldable pub is_space : ℕ → Bool
is_space c = c == b' ' || (c == 9 || (c == 10 || (c == 11 || (c == 12 || c == 13))))

trim_left : Bytes → Bytes
trim_left [] = []
trim_left (c ∷ s) = let rest = trim_left s in if is_space c then rest else c ∷ s

unfoldable pub trim_space : Bytes → Bytes
unfolding trim_left is_space
trim_space s = reverse (trim_left (reverse (trim_left s)))

append-cons-ne-nil : (s : Bytes) (c : ℕ) (t : Bytes) → s ++ c ∷ t ≢ []
append-cons-ne-nil [] c t = ground arith
append-cons-ne-nil (d ∷ s) c t = ground arith

module _ (is_trusted : Bytes → Bool) (strip_port : Bytes → Bytes) where
  -- The loop over the parts of the header, the rightmost first.
  unfoldable pub rightmost : Bytes → List Bytes → Bytes
  unfolding trim_space
  rightmost remote [] = remote
  rightmost remote (part ∷ parts) =
      let rest = rightmost remote parts in
      let ip = trim_space part in
      if bytes_eq ip [] then rest else if is_trusted ip then rest else ip

  -- `remote_addr` is `r.RemoteAddr`, `xff` the header, and `any_proxies` tells whether trusted proxies
  -- are configured.
  unfoldable pub extract_client_ip : Bool → Bytes → Bytes → Bytes
  unfolding rightmost split
  extract_client_ip any_proxies remote_addr xff =
      let remote_ip = strip_port remote_addr in
      if not any_proxies
      then remote_ip
      else if not (is_trusted remote_ip)
      then remote_ip
      else if bytes_eq xff []
      then remote_ip
      else rightmost remote_ip (reverse (split xff b','))

  rightmost_untrusted :
      (remote part : Bytes) (parts : List Bytes)
      → trim_space part ≢ []
      → is_trusted (trim_space part) ≡ false
      → rightmost remote (part ∷ parts) ≡ trim_space part
  unfolding rightmost
  rightmost_untrusted remote part parts h u = ground (arith, bytes_eq_iff (trim_space part) [])

  rightmost-remote :
      (remote : Bytes) (parts : List Bytes)
      → (rightmost remote parts ≡ remote) ⊎ (is_trusted (rightmost remote parts) ≡ false)
  unfolding rightmost
  rightmost-remote remote [] = inl refl
  rightmost-remote remote (part ∷ parts) = ground (arith, rightmost-remote remote parts)

  reverse-split :
      (forged part : Bytes)
      → All (λ c. c ≢ b',') part
      → reverse (split (forged ++ b',' ∷ part) b',') ≡ part ∷ reverse (split forged b',')
  reverse-split forged part h =
      ap reverse (
        split-append forged part b','
        ∙ ap (λ ps. split forged b',' ++ ps) (split_lacking part b',' h))
      ∙ reverse-append (split forged b',') (part ∷ [])

  -- Behind a trusted proxy the last entry of the header, the one that this proxy wrote, decides, if it
  -- is an untrusted address: whatever the client has put in front of it makes no difference.
  pub extract_client_ip_forged :
      (remote_addr forged part : Bytes)
      → is_trusted (strip_port remote_addr) ≡ true
      → All (λ c. c ≢ b',') part
      → trim_space part ≢ []
      → is_trusted (trim_space part) ≡ false
      → extract_client_ip true remote_addr (forged ++ b',' ∷ part) ≡ trim_space part
  unfolding extract_client_ip
  extract_client_ip_forged remote_addr forged part r c n u = ground (
    arith,
    bytes_eq_iff (forged ++ b',' ∷ part) [],
    reverse-split forged part c,
    rightmost_untrusted (strip_port remote_addr) part (reverse (split forged b',')) n u,
    append-cons-ne-nil forged b',' part,
  )

  -- The address of a request is that of its connection, or an untrusted one.
  pub extract_client_ip-untrusted :
      (any_proxies : Bool) (remote_addr xff : Bytes)
      → (extract_client_ip any_proxies remote_addr xff ≡ strip_port remote_addr)
        ⊎ (is_trusted (extract_client_ip any_proxies remote_addr xff) ≡ false)
  unfolding extract_client_ip
  extract_client_ip-untrusted any_proxies remote_addr xff =
      ground (arith, rightmost-remote (strip_port remote_addr) (reverse (split xff b',')))
