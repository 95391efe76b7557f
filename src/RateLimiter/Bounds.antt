-- ===== src/RateLimiter/Bounds.antt =====
-- What one call of `check` decides and what it stores.
use claude_code_proxy.Prelude.{
  ℕ, ◌+◌, ◌≤◌, String, false, some, List, [], ◌∷◌, ◌++◌, ◌≡◌, ap, inl, inr, filter, length, ltb,
  leb, le→leb, if◌then◌else◌, arith, insert, lookup-insert, str_eq, length-append, length-filter-le,
  filter_idem, filter-append, Bool-cases,
}
use claude_code_proxy.RateLimiter.{
  InMemoryRateLimiter, stored, active_requests, window_start, check, retry_after,
}

-- The requests of a user that count in the minute which starts at `m`.
abbrev pub used : ℕ → InMemoryRateLimiter → String → ℕ
used m r u = length (filter (λ t. leb m t) (stored r u))

stored-insert :
    (r : InMemoryRateLimiter) (v u : String) (ts : List ℕ)
    → stored (record r { request_windows = insert v ts r.request_windows }) u
      ≡ (if str_eq v u then ts else stored r u)
stored-insert r v u ts = ground (arith, lookup-insert v u ts r.request_windows)

pub limit-check :
    (t : ℕ) (r : InMemoryRateLimiter) (v : String)
    → (check t r v).1.requests_per_minute ≡ r.requests_per_minute
unfolding check
limit-check t r v = ground arith

pub allowed-check :
    (t : ℕ) (r : InMemoryRateLimiter) (v : String)
    → (check t r v).0.allowed ≡ ltb (used (window_start t) r v) r.requests_per_minute
unfolding check
allowed-check t r v = ground arith

-- What is stored for each user afterwards.
pub stored-check :
    (t : ℕ) (r : InMemoryRateLimiter) (v u : String)
    → stored (check t r v).1 u ≡ (
        if str_eq v u
        then (if (check t r v).0.allowed
            then active_requests r v t ++ t ∷ []
            else active_requests r v t)
        else stored r u)
unfolding check
stored-check t r v u = elim (Bool-cases (leb r.requests_per_minute (used (window_start t) r v))) [
  | inl e ↦ rw (e, check) (stored-insert r v u _)
  | inr e ↦ rw (e, check) (stored-insert r v u _)
]

-- The stored list of a user after his own call, counted in the window of the call.
used_kept :
    (t : ℕ) (ts : List ℕ)
    → let p = λ (x : ℕ). leb (window_start t) x in
      length (filter p (filter p ts)) ≡ length (filter p ts)
used_kept t ts = ap length (filter_idem (λ x. leb (window_start t) x) ts)

used_grown :
    (t : ℕ) (ts : List ℕ)
    → let p = λ (x : ℕ). leb (window_start t) x in
      length (filter p (filter p ts ++ t ∷ [])) ≡ length (filter p ts) + 1
used_grown t ts =
    rw (filter-append _ (filter (λ x. leb (window_start t) x) ts) (t ∷ []), filter_idem)
      (rw (le→leb (window_start t) t (omega arith))
        (length-append (filter (λ x. leb (window_start t) x) ts) (t ∷ [])))

used-check_same :
    (t : ℕ) (r : InMemoryRateLimiter) (v u : String)
    → used (window_start t) (check t r v).1 u ≡ (
        if str_eq v u
        then (if ltb (used (window_start t) r v) r.requests_per_minute
            then used (window_start t) r v + 1
            else used (window_start t) r v)
        else used (window_start t) r u)
used-check_same t r v u =
    rw (stored-check t r v u, allowed-check t r v)
      (ground (arith, used_kept t (stored r v), used_grown t (stored r v)))

-- A call counts for its own user only, and only where it is allowed.
pub used-check :
    (m t : ℕ) (r : InMemoryRateLimiter) (v u : String)
    → window_start t ≡ m
    → used m (check t r v).1 u ≡ (
        if str_eq v u
        then (if ltb (used m r v) r.requests_per_minute then used m r v + 1 else used m r v)
        else used m r u)
used-check m t r v u e = rw (← e) (used-check_same t r v u)

-- No user has more timestamps stored than requests are allowed in a minute.
abbrev pub IsBounded : InMemoryRateLimiter → Type 0
IsBounded r = (u : String) → length (stored r u) ≤ r.requests_per_minute

-- If no user has more timestamps stored than requests are allowed in a minute, this is still so
-- after a call of `check`, allowed or denied.
pub check-IsBounded :
    (t : ℕ) (r : InMemoryRateLimiter) (v : String) → IsBounded r → IsBounded (check t r v).1
check-IsBounded t r v h u =
    rw (stored-check t r v u, limit-check t r v, allowed-check t r v)
      (ground (
        arith,
        h u,
        h v,
        length-append (active_requests r v t) (t ∷ []),
        length-filter-le (λ x. leb (window_start t) x) (stored r v),
      ))

-- A denied request is told to wait between 1 and 60 seconds, and has no request left.
pub check-retry_after :
    (t : ℕ) (r : InMemoryRateLimiter) (v : String)
    → (check t r v).0.allowed ≡ false
    → (s : ℕ) × ((check t r v).0.retry_after_seconds ≡ some s)
      × ((check t r v).0.remaining_requests ≡ some 0)
      × (1 ≤ s)
      × (s ≤ 60)
unfolding check
check-retry_after t r v h = (retry_after t, ground arith, ground arith, omega arith, omega arith)
