-- ===== src/Publish/Options.antt =====
-- Which options the loop of validGrammarPoint accepts.
use el_backend.Text.Equality.{text_eq_iff}
use el_backend.Database.Table.{any}
use el_backend.Text.{byte_len, text_eq, Unicode, Text}
use el_backend.Base.{
  All-map, All-weaken, inr, refl, ◌⊎◌, ltb, ◌≤◌, arith, inl, Bool-cases, false, true, ◌||◌, map,
  ◌≡◌, [], ◌≢◌, All, Bool, ◌∷◌, List,
}
use el_backend.Publish.Document.{normal_option, check_options}

abbrev pub AllDistinct : List Text → Type 0
AllDistinct [] = Unit {0}
AllDistinct (x ∷ xs) = All (λ y. y ≢ x) xs × AllDistinct xs

pub data Any {A : Type 0} (P : A → Type 0) : List A → Type 0 where
  here : {x : A} {xs : List A} → P x → Any P (x ∷ xs)
  there : {x : A} {xs : List A} → Any P xs → Any P (x ∷ xs)

pub text_eq-false : (s t : Text) → (text_eq s t ≡ false) → s ≢ t
text_eq-false s t h e = ground (arith, (text_eq_iff s t).1 e)

pub text_eq-ne : (s t : Text) → s ≢ t → text_eq s t ≡ false
text_eq-ne s t n = elim (Bool-cases (text_eq s t)) [
  | inl e ↦ absurd (n ((text_eq_iff s t).0 e))
  | inr e ↦ e
]

pub any-All : (x : Text) (seen : List Text) → any (text_eq x) seen ≡ false → All (λ s. x ≢ s) seen
any-All x [] h = tt
any-All x (s ∷ seen) h = (text_eq-false x s (ground arith), any-All x seen (ground arith))

All-any : (x : Text) (seen : List Text) → All (λ s. x ≢ s) seen → any (text_eq x) seen ≡ false
All-any x [] h = refl
All-any x (s ∷ seen) h = ground (arith, text_eq-ne x s h.0, All-any x seen h.1)

module _ ⦃u : Unicode⦄ where
  abbrev pub IsGoodOption : Text → Type 0
  IsGoodOption raw = (normal_option raw ≢ []) × (byte_len (normal_option raw) ≤ 100)

  -- the options that are left, after some were seen
  pub record Remaining (answer : Text) (seen : List Text) (found : Bool) (options : List Text)
      : Type 0 where
    pub good : All IsGoodOption options
    pub fresh : All (λ raw. All (λ s. normal_option raw ≢ s) seen) options
    pub distinct : AllDistinct (map normal_option options)
    pub answered : (found ≡ true) ⊎ Any (λ raw. normal_option raw ≡ answer) options

  module _ (answer : Text) where
    abbrev rejects : List Text → Text → Bool
    rejects seen option =
        text_eq option [] || ltb 100 (byte_len option) || any (text_eq option) seen

    pub check-Remaining :
        (seen : List Text) (found : Bool) (options : List Text)
        → check_options answer seen found options ≡ true
        → Remaining answer seen found options
    unfolding check_options
    check-Remaining seen found [] h = record {
      good = tt;
      fresh = tt;
      distinct = tt;
      answered = inl h;
    }
    check-Remaining seen found (raw ∷ rest) h =
        elim (Bool-cases (rejects seen (normal_option raw))) [
          | inl e ↦ absurd (ground arith)
          | inr e ↦ join e (
              check-Remaining (normal_option raw ∷ seen)
                (found || text_eq (normal_option raw) answer) rest (ground arith))
        ]
      where
        join :
            rejects seen (normal_option raw) ≡ false
            → Remaining answer
                (normal_option raw ∷ seen)
                (found || text_eq (normal_option raw) answer)
                rest
            → Remaining answer seen found (raw ∷ rest)
        join e r = record {
          good = ((text_eq-false (normal_option raw) [] (ground arith), ground arith), r.good);
          fresh = (
            any-All (normal_option raw) seen (ground arith),
            All-weaken (λ _ x. x.1) rest r.fresh,
          );
          distinct =
              (All-map _ normal_option rest (All-weaken (λ _ x. x.0) rest r.fresh), r.distinct);
          answered = elim r.answered [
            | inl x ↦ elim (Bool-cases found) [
              | inl y ↦ inl y
              | inr y ↦ inr (here ((text_eq_iff (normal_option raw) answer).0 (ground arith)))
            ]
            | inr x ↦ inr (there x)
          ];
        }

    seen_more :
        (x : Text) (seen rest : List Text)
        → All (λ y. y ≢ x) (map normal_option rest)
        → All (λ raw. All (λ s. normal_option raw ≢ s) seen) rest
        → All (λ raw. All (λ s. normal_option raw ≢ s) (x ∷ seen)) rest
    seen_more x seen [] h k = tt
    seen_more x seen (raw ∷ rest) h k = ((h.0, k.0), seen_more x seen rest h.1 k.1)

    answer_left :
        (found : Bool) (raw : Text) (rest : List Text)
        → (found ≡ true) ⊎ Any (λ o. normal_option o ≡ answer) (raw ∷ rest)
        → ((found || text_eq (normal_option raw) answer) ≡ true)
          ⊎ Any (λ o. normal_option o ≡ answer) rest
    answer_left found raw rest (inl e) = inl (ground arith)
    answer_left found raw rest (inr (here e)) =
        let same = (text_eq_iff (normal_option raw) answer).1 e in inl (ground arith)
    answer_left found raw rest (inr (there a)) = inr a

    no_answer :
        (found : Bool) → (found ≡ true) ⊎ Any (λ o. normal_option o ≡ answer) [] → found ≡ true
    no_answer found (inl e) = e
    no_answer found (inr a) = elim a [ ]

    pub Remaining-check :
        (seen : List Text) (found : Bool) (options : List Text)
        → Remaining answer seen found options
        → check_options answer seen found options ≡ true
    unfolding check_options
    Remaining-check seen found [] r = no_answer found r.answered
    Remaining-check seen found (raw ∷ rest) r =
        let option = normal_option raw in
        let accepted : rejects seen option ≡ false =
          ground
            (arith, text_eq-ne option [] r.good.0.0, All-any option seen r.fresh.0, r.good.0.1) in
        rw accepted (
          Remaining-check (option ∷ seen) (found || text_eq option answer) rest (record {
            good = r.good.1;
            fresh = seen_more option seen rest r.distinct.0 r.fresh.1;
            distinct = r.distinct.1;
            answered = answer_left found raw rest r.answered;
          }))
