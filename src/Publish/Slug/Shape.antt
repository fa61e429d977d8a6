-- ===== src/Publish/Slug/Shape.antt =====
-- A slug is runs of letters and digits with single dashes between them.
use el_backend.Text.Runs.{Runs, last, more, join, Runs-snoc, Runs-join_snoc}
use el_backend.Publish.Slug.{
  is_empty, slug_step, slugify, trim_dashes, slug_loop, keep_dash, trim_right_dashes,
  trim_left_dashes, dash, is_solid,
}
use el_backend.Base.{
  ◌⊎◌, inr, inl, ap, refl, Bool-cases, ◌∷◌, ◌++◌, arith, true, false, [], ◌≡◌, ◌==◌, Bool, ℕ,
}
use el_backend.Text.{trim_space, to_lower, Text, Unicode}

abbrev pub is_dash : ℕ → Bool
is_dash c = c == dash

module _ ⦃u : Unicode⦄ where
  pub dash_not_solid : is_solid dash ≡ false
  dash_not_solid =
      ground (arith, u.ascii_is_letter dash (omega arith), u.ascii_is_digit dash (omega arith))

  abbrev pub IsSlug : Text → Type 0
  IsSlug = Runs is_solid is_dash

  -- the builder and the flag between two rounds
  data Built : Text → Bool → Type 0 where
    empty : Built [] false
    whole : {b : Text} → IsSlug b → Built b false
    open_end : {b : Text} (b0 : Text) → IsSlug b0 → b ≡ b0 ++ dash ∷ [] → Built b true

  solid_step :
      {b : Text} {dashed : Bool} (c : ℕ)
      → is_solid c ≡ true
      → Built b dashed
      → Built (b ++ c ∷ []) false
  solid_step c h empty = whole (last h)
  solid_step c h (whole r) = whole (Runs-snoc is_solid is_dash c h r)
  solid_step c h (open_end b0 r e) = whole (rw e (Runs-join_snoc is_solid is_dash dash c refl h r))

  dash_step :
      (b : Text) (dashed : Bool) (c : ℕ)
      → is_solid c ≡ false
      → Built b dashed
      → Built (slug_step b dashed c).0 (slug_step b dashed c).1
  dash_step b dashed c e empty = rw e empty
  dash_step b dashed c e (whole (last h)) = rw e (open_end _ (last h) refl)
  dash_step b dashed c e (whole (more h r)) = rw e (open_end _ (more h r) refl)
  dash_step b dashed c e (whole (join h j r)) = rw e (open_end _ (join h j r) refl)
  dash_step b dashed c e (open_end b0 r x) = elim (Bool-cases (is_empty b)) [
    | inl k ↦ rw (e, k) (open_end b0 r x)
    | inr k ↦ rw (e, k) (open_end b0 r x)
  ]

  slug_loop-Built :
      (b : Text) (dashed : Bool) (s : Text)
      → Built b dashed
      → (d : Bool) × Built (slug_loop b dashed s) d
  unfolding slug_loop
  slug_loop-Built b dashed [] h = (dashed, h)
  slug_loop-Built b dashed (c ∷ s) h = elim (Bool-cases (is_solid c)) [
    | inl e ↦ rw e (slug_loop-Built (b ++ c ∷ []) false s (solid_step c e h))
    | inr e ↦ slug_loop-Built _ _ s (dash_step b dashed c e h)
  ]

  keep-cons : {s : Text} (c : ℕ) → IsSlug s → keep_dash c s ≡ c ∷ s
  keep-cons c (last h) = refl
  keep-cons c (more h r) = refl
  keep-cons c (join h j r) = refl

  solid_not_dash : (c : ℕ) → is_solid c ≡ true → (c == dash) ≡ false
  solid_not_dash c h = elim (Bool-cases (c == dash)) [
    | inr e ↦ e
    | inl e ↦ absurd (differs (ground arith))
  ]
    where
      differs : c ≡ dash → ⊥
      differs x = cc (ap is_solid x, h, dash_not_solid)

  pub trim_right-IsSlug : {s : Text} → IsSlug s → trim_right_dashes s ≡ s
  unfolding trim_right_dashes
  trim_right-IsSlug (last {c} h) = rw (solid_not_dash c h) refl
  trim_right-IsSlug (more {c} h r) = rw (trim_right-IsSlug r) (keep-cons c r)
  trim_right-IsSlug (join {c} {d} h j r) = rw (trim_right-IsSlug r, keep-cons d r) refl

  pub trim_left-IsSlug : {s : Text} → IsSlug s → trim_left_dashes s ≡ s
  unfolding trim_left_dashes
  trim_left-IsSlug (last {c} h) = rw (solid_not_dash c h) refl
  trim_left-IsSlug (more {c} h r) = rw (solid_not_dash c h) refl
  trim_left-IsSlug (join {c} {d} h j r) = rw (solid_not_dash c h) refl

  trim_right-dash : (s : Text) → trim_right_dashes (s ++ dash ∷ []) ≡ trim_right_dashes s
  unfolding trim_right_dashes
  trim_right-dash [] = refl
  trim_right-dash (c ∷ s) = ap (keep_dash c) (trim_right-dash s)

  trim_dashes-Built :
      {b : Text} {d : Bool} → Built b d → (trim_dashes b ≡ []) ⊎ IsSlug (trim_dashes b)
  unfolding trim_dashes trim_left_dashes trim_right_dashes
  trim_dashes-Built empty = inl refl
  trim_dashes-Built (whole r) = rw (trim_left-IsSlug r, trim_right-IsSlug r) (inr r)
  trim_dashes-Built (open_end b0 r e) =
      rw (e, trim_left-open r, trim_right-dash b0, trim_right-IsSlug r) (inr r)
    where
      trim_left-open :
          {b0 : Text} → IsSlug b0 → trim_left_dashes (b0 ++ dash ∷ []) ≡ b0 ++ dash ∷ []
      trim_left-open (last {c} h) = rw (solid_not_dash c h) refl
      trim_left-open (more {c} h r) = rw (solid_not_dash c h) refl
      trim_left-open (join {c} {d} h j r) = rw (solid_not_dash c h) refl

  -- A slug is empty, or runs of letters and digits with single dashes between them.
  pub slugify_shape : (value : Text) → (slugify value ≡ []) ⊎ IsSlug (slugify value)
  unfolding slugify
  slugify_shape value =
      let (d, built) = slug_loop-Built [] false (to_lower (trim_space value)) empty in
      trim_dashes-Built built
