-- ===== src/Admin/RateLimit/Guarantee.antt =====
-- The sliding-window guarantee over every run of the limiter.
use vektra_stack.Prelude.{
  ℕ, ◌+◌, ◌≤◌, ◌<◌, ◌≡◌, refl, sym, ◌∙◌, inl, inr, true, false, Option, none, some, List, [], ◌∷◌,
  ◌++◌, arith,
}
use vektra_stack.Prelude.Tests.{leb, if◌then◌else◌, Bool-cases}
use vektra_stack.Prelude.Lists.{length, All}
use vektra_stack.Prelude.Eq.{nat_eq, ◌==◌}
use vektra_stack.Prelude.Dict
use vektra_stack.Admin.RateLimit.{
  RateLimiter, init, window_seconds, window_of, evict, check, check_window, cleanup,
}
use vektra_stack.Admin.RateLimit.Window.{
  Ascending, count_from, count_in, count_in-le-count_from, count_from-le-length, count_from-append,
  count_from-evict, count_in_late, All-le_mono, All-evict, Ascending-evict, Ascending-snoc,
  count_from_expired,
}
use vektra_stack.Admin.RateLimit.Cleanup.{window_of-cleanup, check_some}

-- What happens to a limiter: a request with its key, limit and clocks, or a cleanup.
pub data Event : Type 0 where
  request : ℕ → Option ℕ → ℕ → ℕ → Event
  clean : ℕ → Event

abbrev pub time_of : Event → ℕ
time_of (request key limit now wall) = now
time_of (clean now) = now

pub step : RateLimiter → Event → RateLimiter
step s (request key limit now wall) = (check s key limit now wall).0
step s (clean now) = (cleanup s now).0

-- The time of the event, if it is a request of `k` that is let through.
pub granted : ℕ → RateLimiter → Event → List ℕ
granted k s (request key limit now wall) =
    if key == k then (if (check s key limit now wall).1 then now ∷ [] else []) else []
granted k s (clean now) = []

-- The times at which requests of `k` were let through in a run, added to those before it.
unfoldable pub granted_times : ℕ → RateLimiter → List ℕ → List Event → List ℕ
unfolding step granted check cleanup
granted_times k s log [] = log
granted_times k s log (e ∷ es) = granted_times k (step s e) (granted k s e ++ log) es

-- The clock of a run does not go back.
abbrev pub InOrder : ℕ → List Event → Type 0
InOrder last [] = Unit
InOrder last (e ∷ es) = (last ≤ time_of e) × InOrder (time_of e) es

-- Every request of `k` carries a limit, and one of at most `cap`.
abbrev pub Limited : ℕ → ℕ → Event → Type 0
Limited k cap (request key none now wall) = (key == k) ≡ false
Limited k cap (request key (some l) now wall) = (key == k) ≡ true → l ≤ cap
Limited k cap (clean now) = Unit

record Tracks (k cap now : ℕ) (s : RateLimiter) (log : List ℕ) : Type 0 where
  bounded : (t : ℕ) → count_in t log ≤ cap
  window_from : (t : ℕ) → now ≤ t + window_seconds → count_from t log ≡ count_from t (window_of s k)
  past : All (λ x. x ≤ now) log
  ascending : Ascending (window_of s k)
  recent : All (λ x. x ≤ now) (window_of s k)
  distinct : Dict.Distinct s.windows

Tracks-wait :
    {k cap a b : ℕ} {s : RateLimiter} {log : List ℕ}
    → a ≤ b
    → Tracks k cap a s log
    → Tracks k cap b s log
Tracks-wait {a = a} {b = b} {log = log} h p = record {
  bounded = p.bounded;
  window_from = λ t q. p.window_from t (omega arith);
  past = All-le_mono a b log h p.past;
  ascending = p.ascending;
  recent = All-le_mono a b _ h p.recent;
  distinct = p.distinct;
}

All-snoc : (n : ℕ) (w : List ℕ) → All (λ x. x ≤ n) w → All (λ x. x ≤ n) (w ++ n ∷ [])
All-snoc n [] p = (omega arith, tt)
All-snoc n (x ∷ w) p = (p.0, All-snoc n w p.1)

-- A request of another key leaves the window of `k` as it is.
Tracks-put :
    {k cap now : ℕ} {s : RateLimiter} {log : List ℕ} (key : ℕ) (w : List ℕ)
    → (key == k) ≡ false
    → Tracks k cap now s log
    → Tracks k cap now (record { windows = Dict.put s.windows key w }) log
Tracks-put {k = k} {s = s} key w h p = record {
  bounded = p.bounded;
  window_from = λ t q. rw (Dict.get-put s.windows key k w, h) (p.window_from t q);
  past = p.past;
  ascending = rw (Dict.get-put s.windows key k w, h) p.ascending;
  recent = rw (Dict.get-put s.windows key k w, h) p.recent;
  distinct = Dict.put-Distinct s.windows key w p.distinct;
}

count_from_cons :
    (t x : ℕ) (w : List ℕ) → count_from t (x ∷ w) ≡ count_from t w + count_from t (x ∷ [])
unfolding count_from
count_from_cons t x w = omega arith

module _ {k cap now : ℕ} {s : RateLimiter} {log : List ℕ} (p : Tracks k cap now s log) (key : ℕ)
    (e : (key == k) ≡ true) where
  -- the window of `k`, evicted
  abbrev kept : List ℕ
  kept = evict now (window_of s k)

  kept_from : (t : ℕ) → now ≤ t + window_seconds → count_from t log ≡ count_from t kept
  kept_from t q = p.window_from t q ∙ sym (count_from-evict t now (window_of s k) q)

  Tracks-denied : Tracks k cap now (record { windows = Dict.put s.windows key kept }) log
  Tracks-denied = record {
    bounded = p.bounded;
    window_from = λ t q. rw (Dict.get-put s.windows key k kept, e) (kept_from t q);
    past = p.past;
    ascending = rw (Dict.get-put s.windows key k kept, e) (Ascending-evict now _ p.ascending);
    recent = rw (Dict.get-put s.windows key k kept, e) (All-evict now now _ p.recent);
    distinct = Dict.put-Distinct s.windows key kept p.distinct;
  }

  bounded_granted : length kept < cap → (t : ℕ) → count_in t (now ∷ log) ≤ cap
  unfolding count_in
  bounded_granted h t = ground (
    arith,
    count_in_late t now log p.past,
    p.bounded t,
    count_in-le-count_from t log,
    kept_from t,
    count_from-le-length t kept,
  )

  Tracks-granted :
      length kept < cap
      → Tracks k cap now
          (record { windows = Dict.put s.windows key (kept ++ now ∷ []) })
          (now ∷ log)
  Tracks-granted h = record {
    bounded = bounded_granted h;
    window_from = λ t q.
        rw (Dict.get-put s.windows key k (kept ++ now ∷ []), e, count_from-append t kept (now ∷ []))
          (omega (arith, count_from_cons t now log, kept_from t q));
    past = (omega arith, p.past);
    ascending =
        rw (Dict.get-put s.windows key k (kept ++ now ∷ []), e)
          (Ascending-snoc now _ (All-evict now now _ p.recent) (Ascending-evict now _ p.ascending));
    recent =
        rw (Dict.get-put s.windows key k (kept ++ now ∷ []), e)
          (All-snoc now _ (All-evict now now _ p.recent));
    distinct = Dict.put-Distinct s.windows key _ p.distinct;
  }

-- A check of `k` under a limit of at most `cap`.
Tracks-check :
    {k cap now : ℕ} {s : RateLimiter} {log : List ℕ} (key l wall : ℕ)
    → (key == k) ≡ true
    → l ≤ cap
    → Tracks k cap now s log
    → Tracks k cap now
        (check s key (some l) now wall).0
        ((if (check s key (some l) now wall).1 then now ∷ [] else []) ++ log)
Tracks-check {k = k} {cap = cap} {now = now} {s = s} key l wall e h p =
    let same : key ≡ k = ground arith in
    rw (check_some s key l now wall, same)
      (unfold check_window in
        elim (Bool-cases (leb l (length (evict now (window_of s k))))) [
          | inl full ↦ rw full (rw same at (Tracks-denied p key e))
          | inr room ↦ rw room (rw same at (Tracks-granted p key e (ground arith)))
        ])

-- A request of another key.
Tracks-other :
    {k cap now : ℕ} {s : RateLimiter} {log : List ℕ} (key : ℕ) (limit : Option ℕ) (wall : ℕ)
    → (key == k) ≡ false
    → Tracks k cap now s log
    → Tracks k cap now (check s key limit now wall).0 log
Tracks-other key none wall h p = unfold check in p
Tracks-other {now = now} {s = s} key (some l) wall h p = rw (check_some s key l now wall) (
    unfold check_window in
    elim (Bool-cases (leb l (length (evict now (window_of s key))))) [
      | inl full ↦ rw full (Tracks-put key _ h p)
      | inr room ↦ rw room (Tracks-put key _ h p)
    ])

Tracks-clean :
    {k cap now : ℕ} {s : RateLimiter} {log : List ℕ}
    → Tracks k cap now s log
    → Tracks k cap now (cleanup s now).0 log
unfolding count_from
Tracks-clean {k = k} {now = now} {s = s} {log = log} p =
    elim (window_of-cleanup s k now p.distinct p.ascending) [
      | inl e ↦ record {
        bounded = p.bounded;
        window_from = λ t q. rw e (p.window_from t q);
        past = p.past;
        ascending = rw e p.ascending;
        recent = rw e p.recent;
        distinct = distinct_after;
      }
      | inr (e, gone) ↦ record {
        bounded = p.bounded;
        window_from = λ t q. rw e (p.window_from t q ∙ count_from_expired t now _ gone q);
        past = p.past;
        ascending = rw e tt;
        recent = rw e tt;
        distinct = distinct_after;
      }
    ]
  where
    distinct_after : Dict.Distinct (cleanup s now).0.windows
    distinct_after = unfold cleanup in Dict.delete_all-Distinct s.windows _ p.distinct

Tracks-step :
    {k cap last : ℕ} {s : RateLimiter} {log : List ℕ} (e : Event)
    → last ≤ time_of e
    → Limited k cap e
    → Tracks k cap last s log
    → Tracks k cap (time_of e) (step s e) (granted k s e ++ log)
unfolding step granted
Tracks-step (clean now) h l p = Tracks-clean (Tracks-wait h p)
Tracks-step (request key none now wall) h l p =
    rw l (Tracks-other key none wall l (Tracks-wait h p))
Tracks-step {k = k} (request key (some lim) now wall) h l p = elim (Bool-cases (key == k)) [
  | inl same ↦ rw same (Tracks-check key lim wall same (l same) (Tracks-wait h p))
  | inr other ↦ rw other (Tracks-other key (some lim) wall other (Tracks-wait h p))
]

Tracks-run :
    (k cap : ℕ) (es : List Event) (last : ℕ) (s : RateLimiter) (log : List ℕ)
    → InOrder last es
    → All (Limited k cap) es
    → Tracks k cap last s log
    → (t : ℕ) → count_in t (granted_times k s log es) ≤ cap
unfolding granted_times
Tracks-run k cap [] last s log o l p t = p.bounded t
Tracks-run k cap (e ∷ es) last s log o l p t =
    Tracks-run k cap es (time_of e) (step s e) (granted k s e ++ log) o.1 l.1
      (Tracks-step e o.0 l.0 p) t

-- In every run of an empty limiter (requests of any keys and cleanups, under a clock that does not
-- go back) in which the requests of `k` carry limits of at most `cap`, no window of 60 seconds
-- holds more than `cap` requests of `k` that were let through, wherever it starts.
pub granted_times_bounded :
    (k cap : ℕ) (es : List Event) (t : ℕ)
    → InOrder 0 es
    → All (Limited k cap) es
    → count_in t (granted_times k init [] es) ≤ cap
granted_times_bounded k cap es t o l = Tracks-run k cap es 0 init [] o l start t
  where
    start : Tracks k cap 0 init []
    start =
        unfold count_in count_from Dict.get in
        record {
          bounded = λ t. omega arith;
          window_from = λ t q. refl;
          past = tt;
          ascending = tt;
          recent = tt;
          distinct = tt;
        }
