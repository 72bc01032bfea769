-- ===== src/Middleware/AuthFailureLimiter/Tests.antt =====
-- Bans and addresses at concrete inputs.
use mountain_king.Middleware.AuthFailureLimiter.{AuthFailureLimiter, check, record_failure}
use mountain_king.Middleware.AuthFailureLimiter.ClientIp.{
  extract_client_ip, trim_space, extract_client_ip_forged,
}
use mountain_king.Prelude.{◌≡◌, refl, Bool, true, none, ◌∷◌, ◌++◌, arith, Bytes, codes, bytes_eq}

abbrev limiter : AuthFailureLimiter
limiter = record { failures = λ ip. none; threshold = 3; window = 100; ban_dur = 50 }

abbrev ip : Bytes
ip = codes "9.9.9.9"

-- The first failure is never a ban, also where the threshold is one.
one_failure : check (record_failure (record limiter { threshold = 1 }) 5 ip) 6 ip ≡ true
unfolding check record_failure bytes_eq
one_failure = refl

-- One trusted proxy, and addresses without a port.
abbrev proxy : Bytes → Bool
proxy a = bytes_eq a (codes "10.0.0.1")

abbrev whole : Bytes → Bytes
whole a = a

takes_rightmost :
    extract_client_ip proxy whole true (codes "10.0.0.1") (codes "1.1.1.1, 9.9.9.9, 10.0.0.1")
    ≡ codes "9.9.9.9"
unfolding extract_client_ip bytes_eq
takes_rightmost = refl

extract_client_ip_forged_example :
    extract_client_ip proxy whole true
      (codes "10.0.0.1")
      (codes "127.0.0.1" ++ b',' ∷ codes " 9.9.9.9")
    ≡ trim_space (codes " 9.9.9.9")
unfolding bytes_eq trim_space
extract_client_ip_forged_example =
    extract_client_ip_forged proxy whole (codes "10.0.0.1") (codes "127.0.0.1") (codes " 9.9.9.9")
      refl (omega arith) (λ e. cc) refl
