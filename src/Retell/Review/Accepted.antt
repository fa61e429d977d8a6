-- ===== src/Retell/Review/Accepted.antt =====
-- What the table does with a review that the handler accepts (internal/httpapi/retell.go).
use el_backend.Retell.Review.{
  review_columns_ok, reviewed_row, or_nil, sendable, bad_numbers, refill, outside, bad_transcript,
  is_null, normalize_and_validate, ReviewInput, update_retell_review, merge_retell_review,
  normalize_keywords,
}
use el_backend.Database.Table.{find-update_self, update_rows, any}
use el_backend.Retell.{retell_key}
use el_backend.Base.Int.{pos, ltb_ℤ}
use el_backend.Database.{violation}
use el_backend.Text.{rune_count, text_eq, trim_space, to_lower, Unicode, Text}
use el_backend.Base.{
  ◌∙◌, sym, subst, ap, false, Option-cases, inr, refl, inl, Bool-cases, arith, ok, err, none,
  length, ltb, true, ◌∷◌, find?, [], ◌&&◌, some, ◌||◌, Option, ◌≡◌, not, Bool, leb, List, ℕ,
}
use el_backend.Identity.Schema.{Accounts, RetellAttempt}
use el_backend.Identity.Input.{micros}

module _ ⦃u : Unicode⦄ where
  length-normalize :
      (seen raw l : List Text) → normalize_keywords seen raw ≡ some l → length l ≡ length raw
  unfolding normalize_keywords
  length-normalize seen [] l h = ground arith
  length-normalize seen (raw ∷ rest) l h =
      let keyword = to_lower (trim_space raw) in
      elim (Bool-cases
        (text_eq keyword [] || ltb 100 (rune_count keyword) || any (text_eq keyword) seen)) [
          | inl e ↦ absurd (ground arith)
          | inr e ↦ elim (Option-cases (normalize_keywords (keyword ∷ seen) rest)) [
            | inl x ↦ absurd (ground arith)
            | inr (l', x) ↦ ground (arith, length-normalize (keyword ∷ seen) rest l' x)
          ]
        ]

  -- the columns of an accepted review
  abbrev fits : ReviewInput → Bool
  fits e =
      not (outside 0 100 e.keyword_count)
      && not (outside 0 5_000 e.word_count)
      && not (outside 0 100 e.completion_score)
      && not (ltb_ℤ e.keyword_count (pos (length (or_nil e.matched_keywords))))

  accepted-fits :
      (clock : ℕ) (input e : ReviewInput)
      → normalize_and_validate clock input ≡ some e
      → fits e ≡ true
  unfolding normalize_and_validate
  accepted-fits clock input e h =
      let transcript = trim_space input.transcript in
      elim (Bool-cases (bad_transcript transcript || bad_numbers clock input)) [
        | inl x ↦ absurd (ground arith)
        | inr x ↦ elim (Option-cases (normalize_keywords [] (or_nil input.matched_keywords))) [
          | inl y ↦ absurd (ground arith)
          | inr (l, y) ↦
              let new : ReviewInput = record input {
                transcript = transcript;
                matched_keywords = refill input.matched_keywords l;
              } in
              subst (λ v. fits v ≡ true) (some_inj new (kept x y))
                (refilled-fits input.matched_keywords l x
                  (length-normalize [] (or_nil input.matched_keywords) l y))
        ]
      ]
    where
      refilled-fits :
          (o : Option (List Text)) (l : List Text)
          → (bad_transcript (trim_space input.transcript)
              || bad_numbers clock (record input { matched_keywords = o }))
            ≡ false
          → length l ≡ length (or_nil o)
          → fits (record input {
            transcript = trim_space input.transcript;
            matched_keywords = refill o l;
          })
            ≡ true
      refilled-fits none l x h = ground arith
      refilled-fits (some _) l x h = ground (arith, h)

      kept :
          {l : List Text}
          → (bad_transcript (trim_space input.transcript) || bad_numbers clock input) ≡ false
          → normalize_keywords [] (or_nil input.matched_keywords) ≡ some l
          → some (record input {
            transcript = trim_space input.transcript;
            matched_keywords = refill input.matched_keywords l;
          })
            ≡ some e
      kept x y = rw (x, y) at h

      some_inj : (new : ReviewInput) → Path (Option ReviewInput) (some new) (some e) → new ≡ e
      some_inj new p = ap (λ o. elim o [ none ↦ new | some v ↦ v ]) p

  -- the list is there after the checks where it was before
  accepted-null :
      (clock : ℕ) (input e : ReviewInput)
      → normalize_and_validate clock input ≡ some e
      → is_null e.matched_keywords ≡ is_null input.matched_keywords
  unfolding normalize_and_validate
  accepted-null clock input e h =
      elim (Bool-cases (bad_transcript (trim_space input.transcript) || bad_numbers clock input)) [
        | inl x ↦ absurd (ground arith)
        | inr x ↦ elim (Option-cases (normalize_keywords [] (or_nil input.matched_keywords))) [
          | inl y ↦ absurd (ground arith)
          | inr (l, y) ↦
              let new : ReviewInput = record input {
                transcript = trim_space input.transcript;
                matched_keywords = refill input.matched_keywords l;
              } in
              let same : Path (Option ReviewInput) (some new) (some e) = rw (x, y) at h in
              ap
                (λ (o : Option ReviewInput). elim o [
                  | none ↦ true
                  | some v ↦ is_null v.matched_keywords
                ])
                (sym same)
              ∙ refilled input.matched_keywords l
        ]
      ]
    where
      refilled : (o : Option (List Text)) (l : List Text) → is_null (refill o l) ≡ is_null o
      refilled none l = refl
      refilled (some _) l = refl

  merged-ok :
      (now : ℕ) (e : ReviewInput) (r : RetellAttempt)
      → fits e ≡ true
      → review_columns_ok r ≡ true
      → review_columns_ok (merge_retell_review now e r) ≡ true
  unfolding merge_retell_review
  merged-ok now e r h k = elim (Bool-cases (leb r.review_client_updated_at (micros e.updated_at))) [
    | inl x ↦ rw x h
    | inr x ↦ rw x k
  ]

  abbrev pub Carried : (now user a : ℕ) → ReviewInput → Accounts → RetellAttempt → Type 0
  Carried now user a e d r =
      (d' : Accounts) × ((update_retell_review now user a e d
          ≡ ok (merge_retell_review now e r, d'))
        × ((find? (retell_key user a) d'.retells ≡ some (merge_retell_review now e r))
            × (review_columns_ok (merge_retell_review now e r) ≡ true)))

  -- On a row that satisfies the constraints of the table, an accepted review whose body has the list
  -- of keywords, and whose texts are without U+0000, is carried out: the row that a later lookup finds
  -- is the merged one, which satisfies the constraints too. One without the list is accepted without
  -- it, and is refused by the table unless a later review is stored.
  pub review_accepted :
      (clock now user a : ℕ) (input e : ReviewInput) (d : Accounts) (r : RetellAttempt)
      → normalize_and_validate clock input ≡ some e
      → find? (retell_key user a) d.retells ≡ some r
      → review_columns_ok r ≡ true
      → sendable e ≡ true
      → ((raw : List Text) → input.matched_keywords ≡ some raw → Carried now user a e d r)
        × (input.matched_keywords ≡ none
            → leb r.review_client_updated_at (micros e.updated_at) ≡ true
            → update_retell_review now user a e d ≡ err violation)
  unfolding update_retell_review merge_retell_review
  review_accepted clock now user a input e d r h f k sent =
      let good = merged-ok now e r (accepted-fits clock input e h) k in
      (
        (λ raw listed.
            let present : is_null e.matched_keywords ≡ false =
              accepted-null clock input e h ∙ ap is_null listed in
            (
              record d {
                retells = update_rows (retell_key user a) (merge_retell_review now e) d.retells;
              },
              (
                rw (sent, f, reviewed_row, present, good) (ground arith),
                (
                  find-update_self (retell_key user a) (merge_retell_review now e) (λ x hit. hit)
                      d.retells r f,
                  good,
                ),
              ),
            )),
        (λ missing fresh.
            let absent : is_null e.matched_keywords ≡ true =
              accepted-null clock input e h ∙ ap is_null missing in
            rw (sent, f, reviewed_row, absent, fresh) refl),
      )
