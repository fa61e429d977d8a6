-- ===== src/Identity/Input/Word.antt =====
-- The words that the word list takes, and their normal form.
use el_backend.Text.Case.{to_lower_idem, rune_count-to_lower}
use el_backend.Text.Trim.{trim_space_tight}
use el_backend.Base.{
  subst, All-weaken, ltb, inr, ◌≤◌, refl, inl, not, [], Bool-cases, ok, arith, ◌||◌, false, ◌∷◌, ℕ,
  ◌≡◌, Bool, All, true,
}
use el_backend.Identity.Input.{is_joiner, matches_word, normalize_vocabulary_word}
use el_backend.Text.{
  trim_space, rune_count, to_lower, is_space, Text, lower_rune, valid_string, Unicode,
}
use el_backend.Text.Runs.{Runs, last, more, join}

module _ ⦃u : Unicode⦄ where
  abbrev pub IsWord : Text → Type 0
  IsWord = Runs u.is_letter is_joiner

  -- what the pattern reads after a letter
  matches_more :
      (c : ℕ) (s : Text) → u.is_letter c ≡ true → matches_word false s ≡ true → IsWord (c ∷ s)
  unfolding matches_word
  matches_more c [] h k = last h
  matches_more c (d ∷ []) h k = elim (Bool-cases (u.is_letter d)) [
    | inl e ↦ more h (last e)
    | inr e ↦ absurd (ground arith)
  ]
  matches_more c (d ∷ x ∷ s) h k = elim (Bool-cases (u.is_letter d)) [
    | inl e ↦ more h (matches_more d (x ∷ s) e (ground arith))
    | inr e ↦ join h (ground arith) (matches_more x s (ground arith) (ground arith))
  ]

  matches_word-IsWord : (s : Text) → matches_word true s ≡ true → IsWord s
  unfolding matches_word
  matches_word-IsWord [] h = absurd (ground arith)
  matches_word-IsWord (c ∷ s) h = matches_more c s (ground arith) (ground arith)

  lower_letter : (c : ℕ) → u.is_letter c ≡ true → u.is_letter (lower_rune c) ≡ true
  unfolding lower_rune
  lower_letter c h = ground (arith, u.letter_valid c h, u.lower_of_letter c h)

  lower_joiner : (c : ℕ) → is_joiner c ≡ true → lower_rune c ≡ c
  unfolding lower_rune
  lower_joiner c h = ground (arith, u.ascii_lower_of c, u.lower_of_quote)

  lower-matches :
      (need : Bool) (s : Text) → matches_word need s ≡ true → matches_word need (to_lower s) ≡ true
  unfolding matches_word to_lower
  lower-matches need [] h = h
  lower-matches need (c ∷ s) h = elim (Bool-cases (u.is_letter c)) [
    | inl e ↦ ground (arith, lower_letter c e, lower-matches false s)
    | inr e ↦ ground (arith, lower_joiner c, lower-matches true s)
  ]

  matches-All :
      (need : Bool) (s : Text)
      → matches_word need s ≡ true
      → All (λ c. (u.is_letter c || is_joiner c) ≡ true) s
  unfolding matches_word
  matches-All need [] h = tt
  matches-All need (c ∷ s) h = (ground arith, matches-All (not (u.is_letter c)) s (ground arith))

  word_rune_solid : (c : ℕ) → (u.is_letter c || is_joiner c) ≡ true → is_space c ≡ false
  unfolding is_space
  word_rune_solid c h = ground (arith, u.letter_not_space c)

  matches-valid :
      (s : Text) → All (λ c. (u.is_letter c || is_joiner c) ≡ true) s → valid_string s ≡ true
  unfolding valid_string
  matches-valid [] h = refl
  matches-valid (c ∷ s) h = ground (arith, u.letter_valid c, matches-valid s h.1, h.0)

  abbrev pub IsNormal : Text → Type 0
  IsNormal normal =
      IsWord normal × (rune_count normal ≤ 100) × (normalize_vocabulary_word normal ≡ ok normal)

  lower-IsNormal :
      (s : Text) → matches_word true s ≡ true → rune_count s ≤ 100 → IsNormal (to_lower s)
  unfolding normalize_vocabulary_word
  lower-IsNormal s h k =
      let matches = lower-matches true s h in
      let runes = matches-All true (to_lower s) matches in
      let trimmed = trim_space_tight (to_lower s) (All-weaken word_rune_solid (to_lower s) runes) in
      let short : ltb 100 (rune_count (to_lower s)) ≡ false =
        ground (arith, rune_count-to_lower s) in
      (
        matches_word-IsWord (to_lower s) matches,
        ground (arith, rune_count-to_lower s),
        rw (trimmed, matches-valid (to_lower s) runes, short, matches, to_lower_idem s) refl,
      )

  -- A word that is accepted is stored as runs of letters with single joiners between them, of at most
  -- a hundred runes, and its normal form is accepted as itself.
  pub normalize_vocabulary_word-IsNormal :
      (word normal : Text)
      → normalize_vocabulary_word word ≡ ok normal
      → IsWord normal × (rune_count normal ≤ 100) × (normalize_vocabulary_word normal ≡ ok normal)
  unfolding normalize_vocabulary_word
  normalize_vocabulary_word-IsNormal word normal h =
      elim (Bool-cases (
        not (valid_string (trim_space word))
        || ltb 100 (rune_count (trim_space word))
        || not (matches_word true (trim_space word)))) [
          | inl e ↦ absurd (ground arith)
          | inr e ↦
              subst IsNormal (lowered e)
                (lower-IsNormal (trim_space word) (ground arith) (ground arith))
        ]
    where
      lowered :
          (not (valid_string (trim_space word))
              || ltb 100 (rune_count (trim_space word))
              || not (matches_word true (trim_space word)))
            ≡ false
          → to_lower (trim_space word) ≡ normal
      lowered e = ground arith
