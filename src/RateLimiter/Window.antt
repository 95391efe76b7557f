-- ===== src/RateLimiter/Window.antt =====
-- Sequences of calls within one clock minute, and what waiting for the next minute does.
use claude_code_proxy.Prelude.{
  ℕ, ◌+◌, ◌-◌, ◌*◌, ◌%◌, ◌≤◌, ◌<◌, min, max, String, true, false, some, List, [], ◌∷◌, ◌≡◌, refl,
  ap, ◌∙◌, ◌≢◌, inl, inr, ◌&&◌, str_eq_iff, ltb, leb, if◌then◌else◌, arith, str_eq, In, lookup,
  Bool-cases, str_eq_refl, filter-none, lt→ltb, lt→leb_false, In_of_filter, sym,
}
use claude_code_proxy.Prelude.Int.{pos}
use claude_code_proxy.RateLimiter.{
  InMemoryRateLimiter, new_limiter, stored, active_requests, window_start, check, minute, second,
  retry_after,
}
use claude_code_proxy.RateLimiter.Bounds.{
  used, used-check, limit-check, allowed-check, stored-check,
}

abbrev pub Calls : Type 0
Calls = List (ℕ × String)

-- How often `check` lets a user pass in a sequence of calls by all users.
unfoldable pub admitted : String → InMemoryRateLimiter → Calls → ℕ
admitted u r [] = 0
admitted u r ((t, v) ∷ cs) =
    (if str_eq v u && (check t r v).0.allowed then 1 else 0) + admitted u (check t r v).1 cs

-- How often a user calls.
unfoldable pub calls : String → Calls → ℕ
calls u [] = 0
calls u ((t, v) ∷ cs) = (if str_eq v u then 1 else 0) + calls u cs

-- All calls fall into the minute that starts at `m`.
abbrev pub InMinute : ℕ → Calls → Type 0
InMinute m [] = Unit
InMinute m ((t, v) ∷ cs) = (window_start t ≡ m) × InMinute m cs

admitted_from :
    (m : ℕ) (u : String) (r : InMemoryRateLimiter) (cs : Calls)
    → InMinute m cs
    → used m r u ≤ r.requests_per_minute
    → admitted u r cs ≡ min (calls u cs) (r.requests_per_minute - used m r u)
unfolding admitted calls
admitted_from m u r [] h b = omega arith
admitted_from m u r ((t, v) ∷ cs) h b = elim (Bool-cases (str_eq v u)) [
  | inl e ↦ ground (
    arith,
    passes,
    e,
    ap (used m r) ((str_eq_iff v u).0 e),
    used-check m t r v u h.0,
    limit-check t r v,
    admitted_from m u (check t r v).1 cs h.1,
  )
  | inr e ↦ ground (
    arith,
    e,
    used-check m t r v u h.0,
    limit-check t r v,
    admitted_from m u (check t r v).1 cs h.1,
  )
]
  where
    passes : (check t r v).0.allowed ≡ ltb (used m r v) r.requests_per_minute
    passes = rw (← h.0) (allowed-check t r v)

-- From a fresh limiter, a user who calls within one minute is let pass exactly as often as he
-- calls, up to the limit (at least 1), whatever other users do in between.
pub admitted-new_limiter :
    (limit m : ℕ) (u : String) (cs : Calls)
    → InMinute m cs
    → admitted u (new_limiter (pos limit)) cs ≡ min (calls u cs) (max 1 limit)
unfolding new_limiter lookup
admitted-new_limiter limit m u cs h =
    omega (arith, admitted_from m u (new_limiter (pos limit)) cs h (omega arith))

-- All that is stored for a user is not later than `now`.
abbrev pub IsPast : ℕ → InMemoryRateLimiter → String → Type 0
IsPast now r u = (t : ℕ) → In t (stored r u) → t ≤ now

retry_after_lem :
    (now : ℕ) (r : InMemoryRateLimiter) (u : String) (s : ℕ)
    → (check now r u).0.allowed ≡ false
    → (check now r u).0.retry_after_seconds ≡ some s
    → s ≡ retry_after now
unfolding check
retry_after_lem now r u s denied told = ground arith

-- A denied call stores the requests of the window and no other.
stored_denied :
    (now : ℕ) (r : InMemoryRateLimiter) (u : String)
    → (check now r u).0.allowed ≡ false
    → stored (check now r u).1 u ≡ active_requests r u now
stored_denied now r u denied = ground (arith, stored-check now r u u, str_eq_refl u)

-- With a limit of at least 1, a user whose stored requests are all in the past, and who is denied,
-- passes once he has waited one second more than he is told.
pub check_after_wait :
    (now later : ℕ) (r : InMemoryRateLimiter) (u : String) (s : ℕ)
    → 1 ≤ r.requests_per_minute
    → IsPast now r u
    → (check now r u).0.allowed ≡ false
    → (check now r u).0.retry_after_seconds ≡ some s
    → now + (s + 1) * second ≤ later
    → (check later (check now r u).1 u).0.allowed ≡ true
check_after_wait now later r u s pos_limit past denied told wait =
    rw (allowed-check later (check now r u).1 u, limit-check now r u, stored_denied now r u denied)
      (rw (filter-none _ (active_requests r u now) gone) (lt→ltb 0 _ pos_limit))
  where
    s-eq : s ≡ retry_after now
    s-eq = retry_after_lem now r u s denied told

    gone : (t : ℕ) → In t (active_requests r u now) → leb (window_start later) t ≡ false
    gone t i =
        let old : t ≤ now = past t (In_of_filter _ t (stored r u) i).0 in
        lt→leb_false (window_start later) t (omega (arith, s-eq, old))

-- The wait is rounded down: if more than one second is left in the minute, and not a whole number of
-- seconds, a denied user who waits exactly as long as he is told is denied again.
pub check_too_early :
    (now : ℕ) (r : InMemoryRateLimiter) (u : String) (s : ℕ)
    → (check now r u).0.allowed ≡ false
    → (check now r u).0.retry_after_seconds ≡ some s
    → second < minute - now % minute
    → now % second ≢ 0
    → (check (now + s * second) (check now r u).1 u).0.allowed ≡ false
check_too_early now r u s denied told late part =
    rw (allowed-check (now + s * second) (check now r u).1 u, limit-check now r u)
      (rw (same_window, used-check (window_start now) now r u u refl, str_eq_refl u) (rw full full))
  where
    same_window : window_start (now + s * second) ≡ window_start now
    same_window = omega (arith, retry_after_lem now r u s denied told)

    full : ltb (used (window_start now) r u) r.requests_per_minute ≡ false
    full = sym (allowed-check now r u) ∙ denied
