-- ===== src/Text/Trim.antt =====
-- `strings.TrimSpace`: what it removes, and that a second call removes nothing.
use el_backend.Base.{
  All, ℕ, ◌≡◌, refl, Bool, true, false, inl, inr, [], ◌∷◌, arith, Bool-cases, all,
}
use el_backend.Text.Defs.{Text, is_space, trim_left, trim_right, trim_space, keep}

-- a text of white space only
abbrev pub blank : Text → Bool
blank = all is_space

-- the first rune, if there is one, is no white space
abbrev pub StartsSolid : Text → Type 0
StartsSolid [] = Unit
StartsSolid (c ∷ s) = is_space c ≡ false

trim_right-keep : (c : ℕ) (s : Text) → trim_right (keep c s) ≡ keep c (trim_right s)
unfolding trim_right
trim_right-keep c [] = ground arith
trim_right-keep c (d ∷ s) = refl

pub trim_right_idem : (s : Text) → trim_right (trim_right s) ≡ trim_right s
unfolding trim_right
trim_right_idem [] = refl
trim_right_idem (c ∷ s) = cc (trim_right-keep c (trim_right s), trim_right_idem s)

pub trim_left-StartsSolid : (s : Text) → StartsSolid (trim_left s)
unfolding trim_left
trim_left-StartsSolid [] = tt
trim_left-StartsSolid (c ∷ s) = elim (Bool-cases (is_space c)) [
  | inl e ↦ rw e (trim_left-StartsSolid s)
  | inr e ↦ rw e e
]

pub trim_left_solid : (s : Text) → StartsSolid s → trim_left s ≡ s
unfolding trim_left
trim_left_solid [] h = refl
trim_left_solid (c ∷ s) h = ground arith

keep_solid : (c : ℕ) (s : Text) → is_space c ≡ false → keep c s ≡ c ∷ s
unfolding keep
keep_solid c [] h = ground arith
keep_solid c (d ∷ s) h = refl

trim_right-StartsSolid : (s : Text) → StartsSolid s → StartsSolid (trim_right s)
unfolding trim_right
trim_right-StartsSolid [] h = tt
trim_right-StartsSolid (c ∷ s) h = rw (keep_solid c (trim_right s) h) h

-- Trimming twice is trimming once.
pub trim_space_idem : (s : Text) → trim_space (trim_space s) ≡ trim_space s
unfolding trim_space
trim_space_idem s =
    let solid = trim_right-StartsSolid (trim_left s) (trim_left-StartsSolid s) in
    rw (trim_left_solid (trim_right (trim_left s)) solid) (trim_right_idem (trim_left s))

-- A trimmed text is empty exactly if the text was white space.
trim_left_empty : (s : Text) → trim_left s ≡ [] → blank s ≡ true
unfolding trim_left
trim_left_empty [] h = refl
trim_left_empty (c ∷ s) h = ground (arith, trim_left_empty s)

trim_left-blank : (s : Text) → blank s ≡ true → trim_left s ≡ []
unfolding trim_left
trim_left-blank [] h = refl
trim_left-blank (c ∷ s) h = ground (arith, trim_left-blank s)

trim_right_solid : (s : Text) → StartsSolid s → trim_right s ≡ [] → s ≡ []
unfolding trim_right
trim_right_solid [] h e = refl
trim_right_solid (c ∷ s) h e = cc (keep_solid c (trim_right s) h)

pub trim_space_empty : (s : Text) → trim_space s ≡ [] → blank s ≡ true
unfolding trim_space
trim_space_empty s e =
    trim_left_empty s (trim_right_solid (trim_left s) (trim_left-StartsSolid s) e)

pub trim_space-blank : (s : Text) → blank s ≡ true → trim_space s ≡ []
unfolding trim_space trim_right
trim_space-blank s h = rw (trim_left-blank s h)

-- A text with a solid first rune and nothing to trim on the right is its own trim.
pub trim_space_solid : (s : Text) → StartsSolid s → trim_right s ≡ s → trim_space s ≡ s
unfolding trim_space
trim_space_solid s h e = rw (trim_left_solid s h) e

trim_right_tight : (s : Text) → All (λ c. is_space c ≡ false) s → trim_right s ≡ s
unfolding trim_right
trim_right_tight [] h = refl
trim_right_tight (c ∷ s) h = rw (trim_right_tight s h.1) (keep_solid c s h.0)

-- A text without white space is not changed.
pub trim_space_tight : (s : Text) → All (λ c. is_space c ≡ false) s → trim_space s ≡ s
trim_space_tight [] h = trim_space_solid [] tt (trim_right_tight [] h)
trim_space_tight (c ∷ s) h = trim_space_solid (c ∷ s) h.0 (trim_right_tight (c ∷ s) h)
