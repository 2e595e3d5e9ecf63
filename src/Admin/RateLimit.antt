-- ===== src/Admin/RateLimit.antt =====
-- vektra_admin/rate_limit.py: `RateLimiter`. Time is counted in nanoseconds, the resolution of
-- `time.monotonic()`; the two clocks that the methods read are arguments. A test `t < now - W` is
-- written `t + W < now`, since `now - W` may be negative.
pub mod Window
pub mod Guarantee
pub mod Cleanup
mod Tests
use vektra_stack.Prelude.{
  ℕ, suc, ◌+◌, ◌-◌, ◌/◌, Bool, true, false, Option, none, some, List, [], ◌∷◌, ◌++◌, map, ◌||◌,
}
use vektra_stack.Prelude.Tests.{ltb, leb, if◌then◌else◌}
use vektra_stack.Prelude.Lists.{length, select}
use vektra_stack.Prelude.Eq.{nat_eq}
use vektra_stack.Prelude.Dict
use vektra_stack.Prelude.Dict.{Dict}

-- `_WINDOW_SECONDS`, in nanoseconds
abbrev pub window_seconds : ℕ
window_seconds = 60_000_000_000

abbrev pub second : ℕ
second = 1_000_000_000

-- A key is the number of its UUID; a window holds the times of its requests, oldest first.
pub record RateLimiter : Type 0 where
  pub windows : Dict ℕ (List ℕ)

pub record Headers : Type 0 where
  pub limit : ℕ
  pub remaining : ℕ
  pub reset : ℕ

abbrev pub init : RateLimiter
init = record { windows = [] }

-- the window of a key, created empty where the key is new
abbrev pub or_empty : Option (List ℕ) → List ℕ
or_empty none = []
or_empty (some w) = w

abbrev pub window_of : RateLimiter → ℕ → List ℕ
window_of s key_id = or_empty (Dict.get s.windows key_id)

-- `while window and window[0] < window_start: window.popleft()`
pub evict : ℕ → List ℕ → List ℕ
evict now [] = []
evict now (t ∷ w) = let rest = evict now w in if ltb (t + window_seconds) now then rest else t ∷ w

pub reset_at : ℕ → List ℕ → ℕ
reset_at now [] = now + window_seconds
reset_at now (t ∷ w) = t + window_seconds

-- `wall` is `time.time()`; `remaining` is `max(0, rpm_limit - current_count)`.
pub headers_for : ℕ → ℕ → ℕ → List ℕ → Headers
unfolding reset_at
headers_for rpm_limit now wall window = record {
  limit = rpm_limit;
  remaining = rpm_limit - length window;
  reset = (wall + (reset_at now window - now)) / second;
}

pub check_window : RateLimiter → ℕ → ℕ → ℕ → ℕ → List ℕ → RateLimiter × Bool × Option Headers
unfolding headers_for
check_window s key_id rpm_limit now wall window =
    let headers = headers_for rpm_limit now wall window in
    if leb rpm_limit (length window)
    then (record { windows = Dict.put s.windows key_id window }, false, some headers)
    else (
      record { windows = Dict.put s.windows key_id (window ++ now ∷ []) },
      true,
      some (record headers { remaining = headers.remaining - 1 }),
    )

-- `check`: the new state, whether the request is allowed, and the headers (none for `{}`).
pub check : RateLimiter → ℕ → Option ℕ → ℕ → ℕ → RateLimiter × Bool × Option Headers
unfolding check_window evict
check s key_id none now wall = (s, true, none)
check s key_id (some rpm_limit) now wall =
    check_window s key_id rpm_limit now wall (evict now (window_of s key_id))

-- `not window or window[-1] < window_start`
pub is_stale : ℕ → List ℕ → Bool
is_stale now [] = true
is_stale now (t ∷ []) = ltb (t + window_seconds) now
is_stale now (t ∷ u ∷ w) = is_stale now (u ∷ w)

-- The stale keys are collected first, and then deleted one by one.
pub cleanup : RateLimiter → ℕ → RateLimiter × ℕ
unfolding is_stale
cleanup s now =
    let stale = Dict.keys_where (is_stale now) s.windows in
    (record { windows = Dict.delete_all s.windows stale }, length stale)
