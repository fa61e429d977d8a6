-- ===== src/Publish/Slug.antt =====
-- slugify, safeSegment and contentSlug of internal/publishing/service.go.

use el_backend.Base.{◌&&◌, false, [], not, ◌++◌, ◌||◌, ◌==◌, true, if◌then◌else◌, ◌∷◌, Bool, ℕ}
use el_backend.Text.{codes, trim_space, to_lower, Text, Unicode}
pub mod Shape
pub mod Again

abbrev pub dash : ℕ
dash = 0x2d

-- strings.Trim(s, "-")
unfoldable pub trim_left_dashes : Text → Text
trim_left_dashes [] = []
trim_left_dashes (c ∷ s) = if c == dash then trim_left_dashes s else c ∷ s

abbrev pub keep_dash : ℕ → Text → Text
keep_dash c [] = if c == dash then [] else c ∷ []
keep_dash c (d ∷ s) = c ∷ d ∷ s

unfoldable pub trim_right_dashes : Text → Text
trim_right_dashes [] = []
trim_right_dashes (c ∷ s) = keep_dash c (trim_right_dashes s)

unfoldable pub trim_dashes : Text → Text
unfolding trim_left_dashes trim_right_dashes
trim_dashes s = trim_right_dashes (trim_left_dashes s)

-- b.Len() > 0
abbrev pub is_empty : Text → Bool
is_empty [] = true
is_empty (c ∷ s) = false

module _ ⦃u : Unicode⦄ where
  -- unicode.IsLetter(r) || unicode.IsDigit(r)
  abbrev pub is_solid : ℕ → Bool
  is_solid c = u.is_letter c || u.is_digit c

  -- one round of the loop over the builder `b` and the flag `dash`
  abbrev pub slug_step : Text → Bool → ℕ → Text × Bool
  slug_step b dashed c =
      if is_solid c
      then (b ++ c ∷ [], false)
      else if not (is_empty b) && not dashed
      then (b ++ dash ∷ [], true)
      else (b, dashed)

  unfoldable pub slug_loop : Text → Bool → Text → Text
  slug_loop b dashed [] = b
  slug_loop b dashed (c ∷ s) = let (b', dashed') = slug_step b dashed c in slug_loop b' dashed' s

  unfoldable pub slugify : Text → Text
  unfolding slug_loop trim_dashes to_lower trim_space
  slugify value = trim_dashes (slug_loop [] false (to_lower (trim_space value)))

  unfoldable pub safe_segment : Text → Text
  unfolding slugify
  safe_segment value =
      let result = slugify value in if not (is_empty result) then result else codes "content"
