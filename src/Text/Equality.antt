-- ===== src/Text/Equality.antt =====
-- `text_eq` decides equality of texts.
use el_backend.Base.{◌≡◌, ◌↔◌, refl, true, [], ◌∷◌, arith, ==_iff}
use el_backend.Text.Defs.{Text, text_eq}

sound : (s t : Text) → text_eq s t ≡ true → s ≡ t
unfolding text_eq
sound [] [] h = refl
sound (c ∷ s) (d ∷ t) h = ground (arith, sound s t, ==_iff c d)
sound [] (d ∷ t) h = ground arith
sound (c ∷ s) [] h = ground arith

pub text_eq_refl : (s : Text) → text_eq s s ≡ true
unfolding text_eq
text_eq_refl [] = refl
text_eq_refl (c ∷ s) = ground (arith, text_eq_refl s)

pub text_eq_iff : (s t : Text) → (text_eq s t ≡ true) ↔ (s ≡ t)
text_eq_iff s t = (sound s t, λ e. ground (arith, text_eq_refl s))
