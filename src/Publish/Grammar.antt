-- ===== src/Publish/Grammar.antt =====
-- Which grammar points validGrammarPoint accepts.
use el_backend.Publish.Options.{
  Remaining-check, AllDistinct, IsGoodOption, text_eq-false, check-Remaining, text_eq-ne, Any,
}
use el_backend.Text.{codes, trim_space, count, byte_len, text_eq, Unicode, Text}
use el_backend.Base.{
  ◌==◌, not, length, ◌↔◌, All-weaken, ℕ, inr, ltb, ◌≤◌, arith, inl, Bool-cases, false, true, ◌||◌,
  map, ◌≡◌, [], ◌≢◌, All, Bool,
}
use el_backend.Publish.Document.{
  bad_value, is_blank, normal_option, GrammarPoint, check_options, valid_grammar_point,
}

module _ ⦃u : Unicode⦄ where
  -- a text of a grammar point: not blank, and of a bounded number of bytes
  abbrev pub IsFilled : ℕ → Text → Type 0
  IsFilled most s = (trim_space s ≢ []) × (byte_len s ≤ most)

  pub record IsExercise (p : GrammarPoint) : Type 0 where
    pub kind : IsFilled 50 p.kind
    pub title : IsFilled 120 p.title
    pub explanation : IsFilled 1000 p.explanation
    pub example : IsFilled 1000 p.example
    pub prompt : IsFilled 1000 p.prompt
    pub answer : IsFilled 100 p.answer
    pub one_blank : count p.prompt (codes "_____") ≡ 1
    pub differs : p.prompt ≢ p.example
    pub enough : 2 ≤ length p.options
    pub few : length p.options ≤ 6
    pub good_options : All IsGoodOption p.options
    pub distinct : AllDistinct (map normal_option p.options)
    pub answered : Any (λ o. normal_option o ≡ normal_option p.answer) p.options

  filled : (most : ℕ) (s : Text) → bad_value most s ≡ false → IsFilled most s
  unfolding is_blank
  filled most s h = (text_eq-false (trim_space s) [] (ground arith), ground arith)

  not_bad : (most : ℕ) (s : Text) → IsFilled most s → bad_value most s ≡ false
  unfolding is_blank
  not_bad most s h = ground (arith, text_eq-ne (trim_space s) [] h.0, h.1)

  abbrev bad_texts : GrammarPoint → Bool
  bad_texts p =
      bad_value 50 p.kind
      || bad_value 120 p.title
      || bad_value 1000 p.explanation
      || bad_value 1000 p.example
      || bad_value 1000 p.prompt
      || bad_value 100 p.answer

  abbrev bad_shape : GrammarPoint → Bool
  bad_shape p =
      not (count p.prompt (codes "_____") == 1)
      || text_eq p.prompt p.example
      || ltb (length p.options) 2
      || ltb 6 (length p.options)

  accepted :
      (p : GrammarPoint)
      → valid_grammar_point p ≡ true
      → (bad_texts p ≡ false)
        × (bad_shape p ≡ false)
        × (check_options (normal_option p.answer) [] false p.options ≡ true)
  unfolding valid_grammar_point
  accepted p h = elim (Bool-cases (bad_texts p)) [
    | inl e ↦ absurd (ground arith)
    | inr e ↦ elim (Bool-cases (bad_shape p)) [
      | inl k ↦ absurd (ground arith)
      | inr k ↦ (e, k, ground arith)
    ]
  ]

  valid-IsExercise : (p : GrammarPoint) → valid_grammar_point p ≡ true → IsExercise p
  valid-IsExercise p h =
      let (e, k, o) = accepted p h in
      let r = check-Remaining (normal_option p.answer) [] false p.options o in
      record {
        kind = filled 50 p.kind (ground arith);
        title = filled 120 p.title (ground arith);
        explanation = filled 1000 p.explanation (ground arith);
        example = filled 1000 p.example (ground arith);
        prompt = filled 1000 p.prompt (ground arith);
        answer = filled 100 p.answer (ground arith);
        one_blank = ground arith;
        differs = text_eq-false p.prompt p.example (ground arith);
        enough = ground arith;
        few = ground arith;
        good_options = r.good;
        distinct = r.distinct;
        answered = elim r.answered [ inl x ↦ absurd (ground arith) | inr x ↦ x ];
      }

  IsExercise-valid : (p : GrammarPoint) → IsExercise p → valid_grammar_point p ≡ true
  unfolding valid_grammar_point
  IsExercise-valid p x =
      let texts : bad_texts p ≡ false = ground (
        arith,
        not_bad 50 p.kind x.kind,
        not_bad 120 p.title x.title,
        not_bad 1000 p.explanation x.explanation,
        not_bad 1000 p.example x.example,
        not_bad 1000 p.prompt x.prompt,
        not_bad 100 p.answer x.answer,
      ) in
      let shape : bad_shape p ≡ false =
        ground (arith, text_eq-ne p.prompt p.example x.differs, x.one_blank, x.enough, x.few) in
      rw (texts, shape)
        (Remaining-check (normal_option p.answer) [] false p.options (record {
          good = x.good_options;
          fresh = All-weaken (λ _ _. tt) p.options x.good_options;
          distinct = x.distinct;
          answered = inr x.answered;
        }))

  -- The publisher accepts a grammar point exactly if all its texts are filled in and short enough, the
  -- prompt has one blank and is not the example, and its two to six options are, up to case and
  -- surrounding space, filled in, short enough, all different, and one of them the answer.
  pub valid_point_iff : (p : GrammarPoint) → (valid_grammar_point p ≡ true) ↔ IsExercise p
  valid_point_iff p = (valid-IsExercise p, IsExercise-valid p)
