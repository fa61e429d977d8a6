-- ===== src/Publish/Slug/Again.antt =====
-- A slug is its own slug.
use el_backend.Text.Case.{lower_rune_idem}
use el_backend.Publish.Slug.Shape.{
  IsSlug, is_dash, trim_left-IsSlug, trim_right-IsSlug, dash_not_solid, slugify_shape,
}
use el_backend.Text.Trim.{trim_space_tight}
use el_backend.Text.Runs.{last, more, join, Runs-All}
use el_backend.Publish.Slug.{
  is_empty, slugify, trim_dashes, slug_loop, keep_dash, trim_right_dashes, trim_left_dashes, dash,
  is_solid,
}
use el_backend.Base.{
  sym, append_assoc, ◌||◌, All-weaken, ◌∙◌, ◌&&◌, not, All-append, All, inr, inl, ap, refl,
  Bool-cases, ◌∷◌, ◌++◌, arith, true, false, [], ◌≡◌, ◌==◌, Bool, ℕ,
}
use el_backend.Text.{
  trim_right, trim_left, is_space, lower_rune, trim_space, to_lower, Text, Unicode,
}

module _ ⦃u : Unicode⦄ where
  module _ (P : ℕ → Type 0) (P-dash : P dash) where
    slug_loop-All :
        (b : Text) (dashed : Bool) (s : Text) → All P b → All P s → All P (slug_loop b dashed s)
    unfolding slug_loop
    slug_loop-All b dashed [] h k = h
    slug_loop-All b dashed (c ∷ s) h k = elim (Bool-cases (is_solid c)) [
      | inl e ↦ rw e (slug_loop-All (b ++ c ∷ []) false s (All-append P b (c ∷ []) h (k.0, tt)) k.1)
      | inr e ↦ elim (Bool-cases (not (is_empty b) && not dashed)) [
        | inl x ↦
            rw (e, x)
              (slug_loop-All (b ++ dash ∷ []) true s (All-append P b (dash ∷ []) h (P-dash, tt))
                k.1)
        | inr x ↦ rw (e, x) (slug_loop-All b dashed s h k.1)
      ]
    ]

    trim_left-All : (s : Text) → All P s → All P (trim_left_dashes s)
    unfolding trim_left_dashes
    trim_left-All [] h = tt
    trim_left-All (c ∷ s) h = elim (Bool-cases (c == dash)) [
      | inl e ↦ rw e (trim_left-All s h.1)
      | inr e ↦ rw e h
    ]

    keep-All : (c : ℕ) (s : Text) → P c → All P s → All P (keep_dash c s)
    keep-All c [] h k = elim (Bool-cases (c == dash)) [ inl e ↦ rw e tt | inr e ↦ rw e (h, tt) ]
    keep-All c (d ∷ s) h k = (h, k)

    trim_right-All : (s : Text) → All P s → All P (trim_right_dashes s)
    unfolding trim_right_dashes
    trim_right-All [] h = tt
    trim_right-All (c ∷ s) h = keep-All c (trim_right_dashes s) h.0 (trim_right-All s h.1)

  abbrev Lower : ℕ → Type 0
  Lower c = lower_rune c ≡ c

  All-Lower : (s : Text) → All Lower (to_lower s)
  unfolding to_lower
  All-Lower [] = tt
  All-Lower (c ∷ s) = (lower_rune_idem c, All-Lower s)

  Lower-All : (s : Text) → All Lower s → to_lower s ≡ s
  unfolding to_lower
  Lower-All [] h = refl
  Lower-All (c ∷ s) h = cc (h.0, Lower-All s h.1)

  dash-Lower : Lower dash
  unfolding lower_rune
  dash-Lower = let e = u.ascii_lower_of dash (omega arith) in e

  pub slugify-lower : (value : Text) → to_lower (slugify value) ≡ slugify value
  unfolding slugify trim_dashes
  slugify-lower value =
      let s = to_lower (trim_space value) in
      let b = slug_loop [] false s in
      Lower-All _ (
        trim_right-All Lower dash-Lower (trim_left_dashes b) (
          trim_left-All Lower dash-Lower b
            (slug_loop-All Lower dash-Lower [] false s tt (All-Lower (trim_space value)))))

  snoc_not_empty : (b : Text) (c : ℕ) → is_empty (b ++ c ∷ []) ≡ false
  snoc_not_empty [] c = refl
  snoc_not_empty (d ∷ b) c = refl

  loop_solid :
      (b : Text) (dashed : Bool) (c : ℕ) (s : Text)
      → is_solid c ≡ true
      → slug_loop b dashed (c ∷ s) ≡ slug_loop (b ++ c ∷ []) false s
  unfolding slug_loop
  loop_solid b dashed c s h = rw (slug_loop, h) refl

  loop_dash :
      (b : Text) (s : Text)
      → is_empty b ≡ false
      → slug_loop b false (dash ∷ s) ≡ slug_loop (b ++ dash ∷ []) true s
  unfolding slug_loop
  loop_dash b s h = rw (slug_loop, dash_not_solid, h) refl

  slug_loop_end : (b : Text) (dashed : Bool) → slug_loop b dashed [] ≡ b
  unfolding slug_loop
  slug_loop_end b dashed = refl

  slug_loop-IsSlug :
      {s : Text} (b : Text) (dashed : Bool) → IsSlug s → slug_loop b dashed s ≡ b ++ s
  slug_loop-IsSlug b dashed (last {c} h) =
      loop_solid b dashed c [] h ∙ slug_loop_end (b ++ c ∷ []) false
  slug_loop-IsSlug b dashed (more {c} {s} h r) =
      loop_solid b dashed c s h ∙ slug_loop-IsSlug (b ++ c ∷ []) false r ∙ append_assoc b (c ∷ []) s
  slug_loop-IsSlug b dashed (join {c} {d} {s} h j r) =
      let built = b ++ c ∷ [] in
      let at_dash : d ≡ dash = ground arith in
      loop_solid b dashed c (d ∷ s) h
      ∙ ap (λ x. slug_loop built false (x ∷ s)) at_dash
      ∙ loop_dash built s (snoc_not_empty b c)
      ∙ slug_loop-IsSlug (built ++ dash ∷ []) true r
      ∙ append_assoc built (dash ∷ []) s
      ∙ append_assoc b (c ∷ []) (dash ∷ s)
      ∙ ap (λ x. b ++ c ∷ x ∷ s) (sym at_dash)

  rune_solid : (c : ℕ) → (is_solid c || is_dash c) ≡ true → is_space c ≡ false
  unfolding is_space
  rune_solid c h = ground (arith, u.letter_not_space c, u.digit_not_space c)

  slug_solid : {s : Text} → IsSlug s → All (λ c. is_space c ≡ false) s
  slug_solid {s} r = All-weaken rune_solid s (Runs-All is_solid is_dash r)

  slug_again : {s : Text} → IsSlug s → to_lower s ≡ s → slugify s ≡ s
  unfolding slugify trim_dashes
  slug_again {s} r low =
      rw
        (
          trim_space_tight s (slug_solid r),
          low,
          slug_loop-IsSlug [] false r,
          trim_left-IsSlug r,
          trim_right-IsSlug r,
        )
        refl

  -- To make a slug of a slug changes nothing.
  pub slugify_idem : (value : Text) → slugify (slugify value) ≡ slugify value
  unfolding slugify slug_loop to_lower trim_space trim_dashes trim_left_dashes trim_right_dashes
      trim_left trim_right
  slugify_idem value = elim (slugify_shape value) [
    | inl e ↦ rw e refl
    | inr r ↦ slug_again r (slugify-lower value)
  ]
