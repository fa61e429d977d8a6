-- ===== src/Tests/Limits.antt =====
-- Runs of the rate limiter, with a limiter of two requests that is full again after a minute.
use el_backend.Text.{text_eq, codes}
use el_backend.Http.RateLimit.Alone.{admit_all-alone, alone, IsTimely, IsCool}
use el_backend.Http.RateLimit.{
  sweep, put_visitor, visitor, admit, admit_all, Limiter, Visit, minute,
}
use el_backend.Base.{
  ◌∷◌, [], List, Bool, true, false, if◌then◌else◌, ℕ, ◌+◌, ◌-◌, ◌*◌, ◌≤◌, refl, ap, ◌∙◌, sym, ◌≡◌,
  arith, ltb, leb,
}

abbrev refill : ℕ → ℕ × ℕ → ℕ
refill t s = if leb (s.1 + minute) t then 2 else s.0

abbrev spend : ℕ → ℕ → Bool × (ℕ × ℕ)
spend t n = (ltb 0 n, (n - 1, t))

abbrev bucket : Limiter (ℕ × ℕ)
bucket = record { fresh = (2, 0); allow = λ t s. spend t (refill t s) }

refill_late : (n t t' : ℕ) → t + 5 * minute ≤ t' → refill t' (n, t) ≡ 2
refill_late n t t' h = ground arith

refill_fresh : (t : ℕ) → refill t (2, 0) ≡ 2
refill_fresh t = ground arith

cools : (t : ℕ) (s : ℕ × ℕ) → IsCool bucket (bucket.allow t s).1 (t + 5 * minute)
cools t s t' late = ap (spend t') (refill_late _ t t' late ∙ sym (refill_fresh t'))

abbrev visit : ℕ → Visit
visit t = record { host = codes "203.0.113.1"; seen = t; asked = t; swept = t }

abbrev visits : List Visit
visits = visit 5 ∷ visit 6 ∷ visit 7 ∷ visit (20 * minute) ∷ []

visits_run : admit_all bucket visits [] ≡ true ∷ true ∷ false ∷ true ∷ []
unfolding admit_all admit visitor put_visitor sweep text_eq
visits_run = refl

admit_all-alone_example : admit_all bucket visits [] ≡ alone bucket (λ h. (2, 0)) visits
unfolding IsTimely
admit_all-alone_example = admit_all-alone bucket cools visits (
  omega arith,
  omega arith,
  omega arith,
  (
    omega arith,
    omega arith,
    omega arith,
    (omega arith, omega arith, omega arith, (omega arith, omega arith, omega arith, tt)),
  ),
)
