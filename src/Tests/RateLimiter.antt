-- ===== src/Tests/RateLimiter.antt =====
-- proxy/rate_limiter.py at concrete clocks: times are microseconds, the minute starts at 120 s.
use claude_code_proxy.Prelude.{
  ℕ, ◌+◌, ◌*◌, ◌≤◌, true, false, some, [], ◌∷◌, ◌≡◌, refl, min, max, arith, lookup, In, here, there,
}
use claude_code_proxy.Prelude.Int.{pos, negsuc}
use claude_code_proxy.RateLimiter.{InMemoryRateLimiter, new_limiter, check, stored, second}
use claude_code_proxy.RateLimiter.Bounds.{IsBounded, check-IsBounded}
use claude_code_proxy.RateLimiter.Window.{
  Calls, admitted, calls, admitted-new_limiter, check_after_wait, check_too_early,
}

abbrev traffic : Calls
traffic =
    (120000001, "alice")
    ∷ (130000000, "bob")
    ∷ (140000000, "alice")
    ∷ (150000000, "alice")
    ∷ (179999999, "bob")
    ∷ []

admitted-new_limiter_example : admitted "alice" (new_limiter (pos 2)) traffic ≡ min 3 (max 1 2)
unfolding calls
admitted-new_limiter_example =
    admitted-new_limiter 2 120000000 "alice" traffic (refl, (refl, (refl, (refl, (refl, tt)))))

-- A limiter of one request a minute whose user has called at 121.5 s.
abbrev full_limiter : InMemoryRateLimiter
full_limiter = record { requests_per_minute = 1; request_windows = ("alice", 121500000 ∷ []) ∷ [] }

full_limiter-IsBounded : IsBounded full_limiter
unfolding lookup
full_limiter-IsBounded u = ground arith

check-IsBounded_example : IsBounded (check 122000000 full_limiter "alice").1
check-IsBounded_example = check-IsBounded 122000000 full_limiter "alice" full_limiter-IsBounded

denied_now : (check 122500000 full_limiter "alice").0.allowed ≡ false
unfolding check lookup
denied_now = refl

told_now : (check 122500000 full_limiter "alice").0.retry_after_seconds ≡ some 57
unfolding check lookup
told_now = refl

stored_before : (t : ℕ) → In t (stored full_limiter "alice") → t ≤ 122500000
unfolding lookup
stored_before t (here e) = omega arith
stored_before t (there i) = elim i [ ]

check_after_wait_example :
    (check 180500000 (check 122500000 full_limiter "alice").1 "alice").0.allowed ≡ true
check_after_wait_example =
    check_after_wait 122500000 180500000 full_limiter "alice" 57 (omega arith) stored_before
      denied_now told_now (omega arith)

check_too_early_example :
    (check (122500000 + 57 * second) (check 122500000 full_limiter "alice").1 "alice").0.allowed
    ≡ false
check_too_early_example =
    check_too_early 122500000 full_limiter "alice" 57 denied_now told_now (omega arith)
      (omega arith)

at_least_one_request : (new_limiter (negsuc 4)).requests_per_minute ≡ 1
unfolding new_limiter
at_least_one_request = refl
