-- ===== src/Admin/RateLimit/Cleanup.antt =====
-- `cleanup` frees memory and is not seen by any later request.
use vektra_stack.Prelude.{
  ℕ, ◌+◌, ◌≤◌, ◌<◌, ◌≡◌, refl, sym, ap, ◌⊎◌, inl, inr, true, false, Option, none, some, List, [],
  ◌∷◌, arith,
}
use vektra_stack.Prelude.Tests.{if◌then◌else◌}
use vektra_stack.Prelude.Lists.{All}
use vektra_stack.Prelude.Eq.{nat_eq}
use vektra_stack.Prelude.Dict
use vektra_stack.Admin.RateLimit.{
  RateLimiter, window_seconds, window_of, or_empty, evict, is_stale, check, check_window, cleanup,
}
use vektra_stack.Admin.RateLimit.Window.{Ascending, is_stale-All, evict_expired}

stale_or_kept :
    (o : Option (List ℕ)) (b : _) (now : ℕ)
    → Ascending (or_empty o)
    → b ≡ elim o [ none ↦ false | some w ↦ is_stale now w ]
    → (or_empty (if b then none else o) ≡ or_empty o)
      ⊎ (or_empty (if b then none else o) ≡ []) × All (λ x. x + window_seconds < now) (or_empty o)
stale_or_kept none true now a e = inl refl
stale_or_kept none false now a e = inl refl
stale_or_kept (some w) false now a e = inl refl
stale_or_kept (some w) true now a e = inr (refl, is_stale-All now w a (sym e))

-- A window stays, or it goes, and then all its times have expired.
pub window_of-cleanup :
    (s : RateLimiter) (k now : ℕ)
    → Dict.Distinct s.windows
    → Ascending (window_of s k)
    → (window_of (cleanup s now).0 k ≡ window_of s k)
      ⊎ (window_of (cleanup s now).0 k ≡ []) × All (λ x. x + window_seconds < now) (window_of s k)
unfolding cleanup
window_of-cleanup s k now d a = rw Dict.get-delete_all (
    stale_or_kept (Dict.get s.windows k) _ now a
      (Dict.contains-keys_where (is_stale now) s.windows k d))

expired_mono :
    (now later : ℕ) (w : List ℕ)
    → now ≤ later
    → All (λ x. x + window_seconds < now) w
    → All (λ x. x + window_seconds < later) w
expired_mono now later [] h p = tt
expired_mono now later (x ∷ w) h p = (omega arith, expired_mono now later w h p.1)

pub evict-cleanup :
    (s : RateLimiter) (k now later : ℕ)
    → Dict.Distinct s.windows
    → Ascending (window_of s k)
    → now ≤ later
    → evict later (window_of (cleanup s now).0 k) ≡ evict later (window_of s k)
evict-cleanup s k now later d a h = elim (window_of-cleanup s k now d a) [
  | inl e ↦ ap (evict later) e
  | inr (e, p) ↦
      rw (e, evict_expired later (window_of s k) (expired_mono now later _ h p))
        (unfold evict in refl)
]

-- The answer of `check_window` depends on the window alone.
answer-check_window :
    (s s' : RateLimiter) (k l now wall : ℕ) (w : List ℕ)
    → ((check_window s k l now wall w).1 ≡ (check_window s' k l now wall w).1)
      × ((check_window s k l now wall w).2 ≡ (check_window s' k l now wall w).2)
unfolding check_window
answer-check_window s s' k l now wall w = ground arith

pub check_some :
    (s : RateLimiter) (k l now wall : ℕ)
    → check s k (some l) now wall ≡ check_window s k l now wall (evict now (window_of s k))
unfolding check
check_some s k l now wall = refl

-- On a limiter with distinct keys and ascending windows, a request after a cleanup gets the same
-- answer and the same headers as without the cleanup, for every key, limit and later time.
pub check-cleanup :
    (s : RateLimiter) (k : ℕ) (limit : Option ℕ) (now later wall : ℕ)
    → Dict.Distinct s.windows
    → Ascending (window_of s k)
    → now ≤ later
    → ((check (cleanup s now).0 k limit later wall).1 ≡ (check s k limit later wall).1)
      × ((check (cleanup s now).0 k limit later wall).2 ≡ (check s k limit later wall).2)
check-cleanup s k none now later wall d a h = unfold check in (refl, refl)
check-cleanup s k (some l) now later wall d a h =
    rw
      (
        check_some (cleanup s now).0 k l later wall,
        check_some s k l later wall,
        evict-cleanup s k now later d a h,
      )
      (answer-check_window (cleanup s now).0 s k l later wall (evict later (window_of s k)))
