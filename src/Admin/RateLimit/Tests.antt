-- ===== src/Admin/RateLimit/Tests.antt =====
-- Runs of the rate limiter, and the theorems at concrete inputs.
use vektra_stack.Prelude.{ℕ, ◌≤◌, ◌≡◌, refl, none, some, List, [], ◌∷◌, arith, ◌*◌}
use vektra_stack.Admin.RateLimit.{RateLimiter, init, check, cleanup}
use vektra_stack.Admin.RateLimit.Window.{count_in}
use vektra_stack.Admin.RateLimit.Guarantee.{
  Event, request, clean, granted_times, granted_times_bounded,
}
use vektra_stack.Admin.RateLimit.Cleanup.{check-cleanup}
use vektra_stack.Prelude.Dict

abbrev seconds : ℕ → ℕ
seconds n = n * 1_000_000_000

-- Two requests per minute: the third within the minute is refused, and one after it is let through.
abbrev script : List Event
script =
    request 7 (some 2) (seconds 1) 0
    ∷ request 8 none (seconds 2) 0
    ∷ request 7 (some 2) (seconds 20) 0
    ∷ request 7 (some 2) (seconds 30) 0
    ∷ clean (seconds 50)
    ∷ request 7 (some 2) (seconds 62) 0
    ∷ []

script_grants : granted_times 7 init [] script ≡ seconds 62 ∷ seconds 20 ∷ seconds 1 ∷ []
unfolding granted_times Dict.get Dict.put Dict.keys_where Dict.delete_all Dict.remove
script_grants = refl

granted_times_bounded_example : count_in (seconds 1) (granted_times 7 init [] script) ≤ 2
granted_times_bounded_example =
    granted_times_bounded 7 2 script (seconds 1) (omega arith) (ground arith)

abbrev busy : RateLimiter
busy = record { windows = (7, seconds 1 ∷ []) ∷ (8, seconds 40 ∷ seconds 41 ∷ []) ∷ [] }

busy_windows_stay :
    cleanup busy (seconds 90) ≡ (record { windows = (8, seconds 40 ∷ seconds 41 ∷ []) ∷ [] }, 1)
unfolding cleanup Dict.keys_where Dict.delete_all Dict.remove
busy_windows_stay = refl

check-cleanup_example :
    ((check (cleanup busy (seconds 90)).0 7 (some 1) (seconds 91) 5).1
      ≡ (check busy 7 (some 1) (seconds 91) 5).1)
    × ((check (cleanup busy (seconds 90)).0 7 (some 1) (seconds 91) 5).2
        ≡ (check busy 7 (some 1) (seconds 91) 5).2)
unfolding Dict.get
check-cleanup_example =
    check-cleanup busy 7 (some 1) (seconds 90) (seconds 91) 5 (ground arith) (ground arith)
      (omega arith)
