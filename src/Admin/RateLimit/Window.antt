-- ===== src/Admin/RateLimit/Window.antt =====
-- Facts about one window: what `evict` drops, and when `is_stale` holds.
use vektra_stack.Prelude.{ℕ, ◌+◌, ◌≤◌, ◌<◌, ◌≡◌, refl, true, List, [], ◌∷◌, ◌++◌, arith}
use vektra_stack.Prelude.Tests.{leb, if◌then◌else◌}
use vektra_stack.Prelude.Lists.{length, All}
use vektra_stack.Admin.RateLimit.{window_seconds, evict, is_stale}

-- How many times of a window are `t` or later.
unfoldable pub count_from : ℕ → List ℕ → ℕ
count_from t [] = 0
count_from t (x ∷ w) = (if leb t x then 1 else 0) + count_from t w

-- How many lie in the window of 60 seconds that starts at `t`.
unfoldable pub count_in : ℕ → List ℕ → ℕ
count_in t [] = 0
count_in t (x ∷ w) =
    (if leb t x then (if leb x (t + window_seconds) then 1 else 0) else 0) + count_in t w

abbrev pub Ascending : List ℕ → Type 0
Ascending [] = Unit
Ascending (x ∷ w) = All (λ y. x ≤ y) w × Ascending w

pub count_in-le-count_from : (t : ℕ) (w : List ℕ) → count_in t w ≤ count_from t w
unfolding count_in count_from
count_in-le-count_from t [] = omega arith
count_in-le-count_from t (x ∷ w) = ground (arith, count_in-le-count_from t w)

pub count_from-le-length : (t : ℕ) (w : List ℕ) → count_from t w ≤ length w
unfolding count_from
count_from-le-length t [] = omega arith
count_from-le-length t (x ∷ w) = ground (arith, count_from-le-length t w)

pub count_from-append :
    (t : ℕ) (w v : List ℕ) → count_from t (w ++ v) ≡ count_from t w + count_from t v
unfolding count_from
count_from-append t [] v = omega arith
count_from-append t (x ∷ w) v = omega (arith, count_from-append t w v)

-- What is evicted lies before every window that is still open.
pub count_from-evict :
    (t now : ℕ) (w : List ℕ)
    → now ≤ t + window_seconds
    → count_from t (evict now w) ≡ count_from t w
unfolding count_from evict
count_from-evict t now [] h = refl
count_from-evict t now (x ∷ w) h = ground (arith, count_from-evict t now w h)

pub count_in_late : (t now : ℕ) (w : List ℕ) → All (λ x. x ≤ now) w → now < t → count_in t w ≡ 0
unfolding count_in
count_in_late t now [] a h = refl
count_in_late t now (x ∷ w) a h = ground (arith, count_in_late t now w a.1 h)

pub All-le_mono : (a b : ℕ) (w : List ℕ) → a ≤ b → All (λ x. x ≤ a) w → All (λ x. x ≤ b) w
All-le_mono a b [] h p = tt
All-le_mono a b (x ∷ w) h p = (omega arith, All-le_mono a b w h p.1)

pub All-evict : (now b : ℕ) (w : List ℕ) → All (λ x. x ≤ b) w → All (λ x. x ≤ b) (evict now w)
unfolding evict
All-evict now b [] p = tt
All-evict now b (x ∷ w) p = ground (arith, All-evict now b w p.1)

pub Ascending-evict : (now : ℕ) (w : List ℕ) → Ascending w → Ascending (evict now w)
unfolding evict
Ascending-evict now [] p = tt
Ascending-evict now (x ∷ w) p = ground (arith, Ascending-evict now w p.1)

All-snoc_ge :
    (x now : ℕ) (w : List ℕ) → x ≤ now → All (λ y. x ≤ y) w → All (λ y. x ≤ y) (w ++ now ∷ [])
All-snoc_ge x now [] h p = (h, tt)
All-snoc_ge x now (y ∷ w) h p = (p.0, All-snoc_ge x now w h p.1)

pub Ascending-snoc :
    (now : ℕ) (w : List ℕ) → All (λ x. x ≤ now) w → Ascending w → Ascending (w ++ now ∷ [])
Ascending-snoc now [] a p = (tt, tt)
Ascending-snoc now (x ∷ w) a p = (All-snoc_ge x now w a.0 p.0, Ascending-snoc now w a.1 p.1)

-- The last time is the latest, so a window whose last time has expired has expired whole.
pub is_stale-All :
    (now : ℕ) (w : List ℕ)
    → Ascending w
    → is_stale now w ≡ true
    → All (λ x. x + window_seconds < now) w
unfolding is_stale
is_stale-All now [] p h = tt
is_stale-All now (x ∷ []) p h = (ground arith, tt)
is_stale-All now (x ∷ y ∷ w) p h = let rest = is_stale-All now (y ∷ w) p.1 h in (omega arith, rest)

pub evict_expired :
    (now : ℕ) (w : List ℕ) → All (λ x. x + window_seconds < now) w → evict now w ≡ []
unfolding evict
evict_expired now [] p = refl
evict_expired now (x ∷ w) p = ground (arith, evict_expired now w p.1)

pub count_from_expired :
    (t now : ℕ) (w : List ℕ)
    → All (λ x. x + window_seconds < now) w
    → now ≤ t + window_seconds
    → count_from t w ≡ 0
unfolding count_from
count_from_expired t now [] p h = refl
count_from_expired t now (x ∷ w) p h = ground (arith, count_from_expired t now w p.1 h)
