-- ===== src/RateLimiter.antt =====
-- proxy/rate_limiter.py: at most `requests_per_minute` requests of a user in one clock minute.
-- Times are microseconds; a minute begins where `datetime.replace(second=0, microsecond=0)` puts it.
pub mod Bounds
pub mod Window
use claude_code_proxy.Prelude.{
  ℕ, ◌+◌, ◌-◌, ◌*◌, ◌/◌, ◌%◌, max, String, Bool, true, false, Option, none, some, List, [], ◌∷◌,
  ◌++◌, Dict, lookup, insert, filter, length, leb, if◌then◌else◌,
}
use claude_code_proxy.Prelude.Int.{ℤ, pos, negsuc}

pub record RateLimitDecision : Type 0 where
  pub allowed : Bool
  pub retry_after_seconds : Option ℕ
  pub remaining_requests : Option ℕ

pub record InMemoryRateLimiter : Type 0 where
  pub requests_per_minute : ℕ
  pub request_windows : Dict (List ℕ)

abbrev pub second : ℕ
second = 1000000

abbrev pub minute : ℕ
minute = 60000000

abbrev at_least_one : ℤ → ℕ
at_least_one (pos n) = max 1 n
at_least_one (negsuc n) = 1

unfoldable pub new_limiter : ℤ → InMemoryRateLimiter
new_limiter limit = record { requests_per_minute = at_least_one limit; request_windows = [] }

-- now.replace(second=0, microsecond=0)
abbrev pub window_start : ℕ → ℕ
window_start now = now - now % minute

-- self._request_windows.get(user_id, [])
abbrev pub stored : InMemoryRateLimiter → String → List ℕ
stored r user = elim (lookup user r.request_windows) [ none ↦ [] | some ts ↦ ts ]

-- The timestamps of a user that stand in the current window.
abbrev pub active_requests : InMemoryRateLimiter → String → ℕ → List ℕ
active_requests r user now = filter (λ t. leb (window_start now) t) (stored r user)

-- max(1, int((window_end - now).total_seconds()))
abbrev pub retry_after : ℕ → ℕ
retry_after now = max 1 ((window_start now + minute - now) / second)

-- The list in the dict is the one that `append` extends.
abbrev decide : InMemoryRateLimiter → String → ℕ → List ℕ → RateLimitDecision × InMemoryRateLimiter
decide r user now requests =
    if leb r.requests_per_minute (length requests)
    then (
      record {
        allowed = false;
        retry_after_seconds = some (retry_after now);
        remaining_requests = some 0;
      },
      record r { request_windows = insert user requests r.request_windows },
    )
    else (
      record {
        allowed = true;
        retry_after_seconds = none;
        remaining_requests = some (r.requests_per_minute - length (requests ++ now ∷ []));
      },
      record r { request_windows = insert user (requests ++ now ∷ []) r.request_windows },
    )

unfoldable pub check : ℕ → InMemoryRateLimiter → String → RateLimitDecision × InMemoryRateLimiter
check now r user = decide r user now (active_requests r user now)
