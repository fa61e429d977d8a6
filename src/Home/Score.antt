-- ===== src/Home/Score.antt =====
-- The score of a recommendation, and what ranks before what, described without the code.
use el_backend.Base.Int.{pos, negsuc, ℤ}
use el_backend.Publish.Options.{text_eq-ne}
use el_backend.Base.{
  sym, le_or_lt, ◌≤◌, ◌==◌, ltb, ◌∙◌, subst, refl, ◌⊎◌, none, ap, ◌*◌, inr, inl, arith, ◌&&◌, some,
  min, ◌-◌, false, ◌+◌, true, [], ◌≡◌, ℕ, Option, ◌<◌, ◌≢◌, Bool-cases,
}
use el_backend.Text.{codes, text_eq, Text}
use el_backend.Text.Equality.{text_eq_iff}
use el_backend.Home.Defs.{high_quality, Row}
use el_backend.Home.Sections.{
  newer_first, at_level, Taste, Ranked, ranks_before, rank, add_level, add_vocabulary, add_grammar,
  clamp_score, contains_string,
}

-- points for a reason
pub data Bonus (P : Type 0) (n : ℕ) : ℕ → Type 0 where
  given : P → Bonus P n n
  withheld : ¬ P → Bonus P n 0

abbrev pub Prefers : Taste → Row → Type 0
Prefers taste row = (taste.preferred_level ≢ []) × (row.level ≡ some taste.preferred_level)

abbrev pub Teaches : Row → Text → Type 0
Teaches row goal = contains_string row.metadata.learning_goals goal ≡ true

-- the quality in the metadata, brought into the range from 0 to 100
pub data Quality : ℤ → ℕ → Type 0 where
  within : (n : ℕ) → n ≤ 100 → Quality (pos n) n
  above : (n : ℕ) → 100 < n → Quality (pos n) 100
  below : (n : ℕ) → Quality (negsuc n) 0

clamp_score-Quality : (z : ℤ) → Quality z (clamp_score z)
clamp_score-Quality (negsuc n) = below n
clamp_score-Quality (pos n) = elim (le_or_lt n 100) [
  | inl h ↦ let e : min 100 n ≡ n = omega arith in subst (Quality (pos n)) (sym e) (within n h)
  | inr h ↦ let e : min 100 n ≡ 100 = omega arith in subst (Quality (pos n)) (sym e) (above n h)
]

-- the quality of the content, its place in the list of the newest, and the points for the user's
-- level, words and grammar
pub record Scored (taste : Taste) (index : ℕ) (row : Row) (r : Ranked) : Type 0 where
  pub same_row : r.row ≡ row
  pub quality : ℕ
  pub level : ℕ
  pub vocabulary : ℕ
  pub grammar : ℕ
  pub quality_points : Quality row.metadata.quality_score quality
  pub level_points : Bonus (Prefers taste row) 18 level
  pub vocabulary_points :
      Bonus
        ((0 < taste.vocabulary_count) × Teaches row (codes "vocabulary"))
        (min 15 (taste.vocabulary_count * 2))
        vocabulary
  pub grammar_points :
      Bonus ((taste.needs_grammar_practice ≡ true) × Teaches row (codes "grammar")) 30 grammar
  pub total : r.score ≡ quality + (20 - index) + level + vocabulary + grammar

-- one of the three steps of `rank` gives a bonus
abbrev Adds : Type 0 → ℕ → Ranked → Ranked → Type 0
Adds P n r r' = (b : ℕ) × Bonus P n b × (r'.score ≡ r.score + b) × (r'.row ≡ r.row)

at_level_iff :
    (taste : Taste) (row : Row)
    → (at_level taste.preferred_level row.level ≡ true → Prefers taste row)
      × (at_level taste.preferred_level row.level ≡ false → ¬ Prefers taste row)
unfolding text_eq
at_level_iff taste row = from row.level
  where
    from :
        (o : Option Text)
        → (at_level taste.preferred_level o ≡ true
            → (taste.preferred_level ≢ []) × (o ≡ some taste.preferred_level))
          × (at_level taste.preferred_level o ≡ false
              → ¬ ((taste.preferred_level ≢ []) × (o ≡ some taste.preferred_level)))
    from none = ((λ h. absurd (ground arith)), λ h x. absurd (ground arith))
    from (some l) =
        let p = taste.preferred_level in
        (
          (λ h. (
            (λ e. absurd (ground (arith, (text_eq_iff p []).1 e))),
            ap (λ z. some z) ((text_eq_iff l p).0 (ground arith)),
          )),
          (λ h (n, e).
              let same : l ≡ p = ap (λ (o : Option Text). elim o [ none ↦ l | some z ↦ z ]) e in
              absurd (ground (arith, (text_eq_iff l p).1 same, text_eq-ne p [] n))),
        )

add_level-Adds : (taste : Taste) (r : Ranked) → Adds (Prefers taste r.row) 18 r (add_level taste r)
unfolding add_level
add_level-Adds taste r = elim (Bool-cases (at_level taste.preferred_level r.row.level)) [
  | inl e ↦ rw e (18, given ((at_level_iff taste r.row).0 e), refl, refl)
  | inr e ↦ rw e (0, withheld ((at_level_iff taste r.row).1 e), omega arith, refl)
]

add_vocabulary-Adds :
    (taste : Taste) (r : Ranked)
    → Adds
        ((0 < taste.vocabulary_count) × Teaches r.row (codes "vocabulary"))
        (min 15 (taste.vocabulary_count * 2))
        r
        (add_vocabulary taste r)
unfolding add_vocabulary
add_vocabulary-Adds taste r =
    let teaches = contains_string r.row.metadata.learning_goals (codes "vocabulary") in
    elim (Bool-cases (ltb 0 taste.vocabulary_count && teaches)) [
      | inl e ↦
          rw e (min 15 (taste.vocabulary_count * 2), given (ground arith, ground arith), refl, refl)
      | inr e ↦ rw e (0, withheld (λ (p, t). absurd (ground arith)), omega arith, refl)
    ]

add_grammar-Adds :
    (taste : Taste) (r : Ranked)
    → Adds
        ((taste.needs_grammar_practice ≡ true) × Teaches r.row (codes "grammar"))
        30
        r
        (add_grammar taste r)
unfolding add_grammar
add_grammar-Adds taste r =
    let teaches = contains_string r.row.metadata.learning_goals (codes "grammar") in
    elim (Bool-cases (taste.needs_grammar_practice && teaches)) [
      | inl e ↦ rw e (30, given (ground arith, ground arith), refl, refl)
      | inr e ↦ rw e (0, withheld (λ (p, t). absurd (ground arith)), omega arith, refl)
    ]

pub rank-Scored :
    (taste : Taste) (index : ℕ) (row : Row) → Scored taste index row (rank taste index row)
unfolding rank
rank-Scored taste index row =
    let first : Ranked = record {
      row = row;
      score = clamp_score row.metadata.quality_score + (20 - index);
      reason = high_quality;
    } in
    let second = add_level taste first in
    let third = add_vocabulary taste second in
    let (level, level_points, s1, r1) = add_level-Adds taste first in
    let (vocabulary, vocabulary_points, s2, r2) = add_vocabulary-Adds taste second in
    let (grammar, grammar_points, s3, r3) = add_grammar-Adds taste third in
    let row3 : third.row ≡ row = r2 ∙ r1 in
    record {
      same_row = r3 ∙ row3;
      quality = clamp_score row.metadata.quality_score;
      quality_points = clamp_score-Quality row.metadata.quality_score;
      level = level;
      vocabulary = vocabulary;
      grammar = grammar;
      level_points = level_points;
      vocabulary_points =
          subst
            (λ (x : Row).
              Bonus ((0 < taste.vocabulary_count) × Teaches x (codes "vocabulary"))
                (min 15 (taste.vocabulary_count * 2)) vocabulary)
            r1 vocabulary_points;
      grammar_points =
          subst
            (λ (x : Row).
              Bonus ((taste.needs_grammar_practice ≡ true) × Teaches x (codes "grammar")) 30
                grammar)
            row3 grammar_points;
      total = s3 ∙ ap (λ n. n + grammar) (s2 ∙ ap (λ n. n + vocabulary) s1);
    }

-- released later, and before what has no time
abbrev pub Newer : Option ℕ → Option ℕ → Type 0
Newer (some a) (some b) = b < a
Newer (some a) none = Unit {0}
Newer none b = ⊥

-- a higher score; of equal scores the later release; and of these equal too the smaller id
pub data Better (a b : Ranked) : Type 0 where
  higher : b.score < a.score → Better a b
  later : a.score ≡ b.score → Newer a.row.released_at b.row.released_at → Better a b
  smaller :
      a.score ≡ b.score → a.row.released_at ≡ b.row.released_at → a.row.id < b.row.id → Better a b

newer_first-cases :
    (a b : Option ℕ)
    → ((newer_first a b ≡ some true) × Newer a b)
      ⊎ (((newer_first a b ≡ none) × (a ≡ b))
          ⊎ ((newer_first a b ≡ some false) × (¬ Newer a b) × (a ≢ b)))
newer_first-cases none none = inr (inl (refl, refl))
newer_first-cases none (some b) = inr (inr (refl, (λ x. x), λ e. ground arith))
newer_first-cases (some a) none = inl (refl, tt)
newer_first-cases (some a) (some b) = elim (Bool-cases (a == b)) [
  | inl e ↦ inr (inl (rw e refl, ap (λ z. some z) (ground arith)))
  | inr e ↦ elim (Bool-cases (ltb b a)) [
    | inl h ↦ inl (rw (e, h) refl, ground arith)
    | inr h ↦ inr (inr (rw (e, h) refl, (λ x. ground arith), λ x. ground arith))
  ]
]

pub ranks_before-false : (a b : Ranked) → ranks_before a b ≡ false → ¬ Better a b
unfolding ranks_before
ranks_before-false a b h (higher p) = ground arith
ranks_before-false a b h (later p n) =
    elim (newer_first-cases a.row.released_at b.row.released_at) [
      | inl (e, _) ↦ ground arith
      | inr (inl (e, same)) ↦
          absurd (irreflexive b.row.released_at (subst (λ x. Newer x b.row.released_at) same n))
      | inr (inr (e, m, _)) ↦ absurd (m n)
    ]
  where
    irreflexive : (o : Option ℕ) → ¬ Newer o o
    irreflexive none x = x
    irreflexive (some c) x = ground arith
ranks_before-false a b h (smaller p same i) =
    elim (newer_first-cases a.row.released_at b.row.released_at) [
      | inl (e, n) ↦ ground arith
      | inr (inl (e, _)) ↦ ground arith
      | inr (inr (e, _, m)) ↦ absurd (m same)
    ]
