-- ===== src/Text/Case.antt =====
-- `strings.ToLower` keeps the number of runes, and a second call changes nothing.
use el_backend.Base.{ℕ, ◌≡◌, refl, [], ◌∷◌, arith}
use el_backend.Text.Defs.{Text, Unicode, lower_rune, to_lower, rune_count}

module _ ⦃u : Unicode⦄ where
  pub lower_rune_idem : (c : ℕ) → lower_rune (lower_rune c) ≡ lower_rune c
  unfolding lower_rune
  lower_rune_idem c =
      ground (arith, u.lower_of-lower_of c, u.lower_of_replacement, u.lower_of_rune c)

  pub to_lower_idem : (s : Text) → to_lower (to_lower s) ≡ to_lower s
  unfolding to_lower
  to_lower_idem [] = refl
  to_lower_idem (c ∷ s) = cc (lower_rune_idem c, to_lower_idem s)

  pub rune_count-to_lower : (s : Text) → rune_count (to_lower s) ≡ rune_count s
  unfolding to_lower
  rune_count-to_lower [] = refl
  rune_count-to_lower (c ∷ s) = cc (rune_count-to_lower s)
