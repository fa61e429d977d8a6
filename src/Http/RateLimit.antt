-- ===== src/Http/RateLimit.antt =====
-- The middleware of ipRateLimiter (internal/httpapi/ratelimit.go). golang.org/x/time/rate is an
-- argument; the mutex makes one request after another. Times are in nanoseconds.
use el_backend.Text.{Text, text_eq}
pub mod Table
pub mod Alone
use el_backend.Base.{
  not, filter, ◌+◌, length, [], ltb, ◌^◌, if◌then◌else◌, ◌*◌, ◌∷◌, Bool, some, none, ℕ, List,
  Option,
}

-- rate.NewLimiter(l.rate, l.burst), and limiter.Allow() at a time
pub record Limiter (S : Type 0) : Type 0 where
  pub fresh : S
  pub allow : ℕ → S → Bool × S

pub record Visitor (S : Type 0) : Type 0 where
  pub limiter : S
  pub last_seen : ℕ

-- a request and the clock as it is read for lastSeen, inside Allow, and for the cutoff
pub record Visit : Type 0 where
  pub host : Text
  pub seen : ℕ
  pub asked : ℕ
  pub swept : ℕ

abbrev pub minute : ℕ
minute = 60 * 10 ^ 9

abbrev pub max_visitors : ℕ
max_visitors = 10000

module _ {S : Type 0} where
  unfoldable pub visitor : Text → List (Text × Visitor S) → Option (Visitor S)
  unfolding text_eq
  visitor h [] = none
  visitor h ((k, v) ∷ m) = if text_eq k h then some v else visitor h m

  unfoldable pub put_visitor : Text → Visitor S → List (Text × Visitor S) → List (Text × Visitor S)
  unfolding text_eq
  put_visitor h v [] = (h, v) ∷ []
  put_visitor h v ((k, w) ∷ m) = if text_eq k h then (k, v) ∷ m else (k, w) ∷ put_visitor h v m

  -- item.lastSeen.Before(now.Add(-10 * time.Minute))
  abbrev pub is_stale : ℕ → Text × Visitor S → Bool
  is_stale now item = ltb (item.1.last_seen + 10 * minute) now

  unfoldable pub sweep : ℕ → List (Text × Visitor S) → List (Text × Visitor S)
  sweep now m =
      if ltb max_visitors (length m) then filter (λ item. not (is_stale now item)) m else m

  abbrev pub limiter_of : Limiter S → Option (Visitor S) → S
  limiter_of l none = l.fresh
  limiter_of l (some v) = v.limiter

  unfoldable pub admit :
      Limiter S → Visit → List (Text × Visitor S) → Bool × List (Text × Visitor S)
  unfolding visitor put_visitor sweep
  admit l r m =
      let (allowed, s) = l.allow r.asked (limiter_of l (visitor r.host m)) in
      (allowed, sweep r.swept (put_visitor r.host (record { limiter = s; last_seen = r.seen }) m))

  unfoldable pub admit_all : Limiter S → List Visit → List (Text × Visitor S) → List Bool
  unfolding admit
  admit_all l [] m = []
  admit_all l (r ∷ rs) m = let (allowed, m') = admit l r m in allowed ∷ admit_all l rs m'
