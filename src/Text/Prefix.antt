-- ===== src/Text/Prefix.antt =====
-- strings.TrimPrefix.
use el_backend.Base.{
  inr, inl, ap, refl, ==_refl, [], Bool-cases, arith, ◌∷◌, false, if◌then◌else◌, ◌⊎◌, length, true,
  drop, ◌≡◌, ◌++◌,
}
use el_backend.Text.Defs.{Text, has_prefix}

-- strings.TrimPrefix
unfoldable pub trim_prefix : Text → Text → Text
unfolding has_prefix
trim_prefix s t = if has_prefix s t then drop (length t) s else s

pub has_prefix-append : (t r : Text) → has_prefix (t ++ r) t ≡ true
unfolding has_prefix
has_prefix-append [] r = refl
has_prefix-append (c ∷ t) r = rw (==_refl c) (has_prefix-append t r)

drop-append : (t r : Text) → drop (length t) (t ++ r) ≡ r
drop-append [] r = refl
drop-append (c ∷ t) r = drop-append t r

pub trim_prefix-append : (t r : Text) → trim_prefix (t ++ r) t ≡ r
unfolding trim_prefix
trim_prefix-append t r = rw (has_prefix-append t r) (drop-append t r)

-- a prefix, and what is left of the text
pub has_prefix-true : (s t : Text) → has_prefix s t ≡ true → s ≡ t ++ drop (length t) s
unfolding has_prefix
has_prefix-true s [] h = refl
has_prefix-true [] (d ∷ t) h = absurd (ground arith)
has_prefix-true (c ∷ s) (d ∷ t) h =
    let e : c ≡ d = ground arith in rw e (ap (◌∷◌ d) (has_prefix-true s t (ground arith)))

pub trim_prefix-without : (s t : Text) → has_prefix s t ≡ false → trim_prefix s t ≡ s
unfolding trim_prefix
trim_prefix-without s t h = rw h refl

pub trim_prefix-cases : (s t : Text) → (s ≡ t ++ trim_prefix s t) ⊎ (trim_prefix s t ≡ s)
unfolding trim_prefix
trim_prefix-cases s t = elim (Bool-cases (has_prefix s t)) [
  | inl h ↦ inl (rw h (has_prefix-true s t h))
  | inr h ↦ inr (rw h refl)
]
