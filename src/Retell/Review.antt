-- ===== src/Retell/Review.antt =====
-- The review of a recording (PUT /me/retell-attempts/{attemptId}/review, internal/httpapi/retell.go):
-- normalizeAndValidate, and UpdateRetellReview (identity.sql.go).
use el_backend.Database.Table.{find-update_self, update_rows, any}
use el_backend.Retell.{retell_key}
use el_backend.Base.Int.{pos, ltb_ℤ, ℤ}
use el_backend.Database.{violation, no_rows, Error, Query}
use el_backend.Text.{
  storable, rune_count, valid_string, text_eq, trim_space, to_lower, Unicode, Text,
}
use el_backend.Base.{
  all, ◌∙◌, sym, subst, ap, false, Option-cases, inr, refl, inl, Bool-cases, arith, guard, ◌*◌, ok,
  err, ◌+◌, none, length, ltb, true, ◌∷◌, max, find?, [], Outcome, ◌&&◌, some, ◌||◌, Option, ◌≡◌,
  if◌then◌else◌, not, Bool, leb, List, ℕ,
}
use el_backend.Identity.Schema.{Accounts, RetellAttempt}
use el_backend.Identity.Input.{second, is_zero, micros}
pub mod Accepted

-- retellReviewInput; `none` is the nil slice, of a body without the list or with null
pub record ReviewInput : Type 0 where
  pub transcript : Text
  pub matched_keywords : Option (List Text)
  pub keyword_count : ℤ
  pub word_count : ℤ
  pub completion_score : ℤ
  pub updated_at : ℕ

abbrev pub mapped : {A B : Type 0} → (A → B) → Option A → Option B
mapped f none = none
mapped f (some a) = some (f a)

-- len and range of a slice
abbrev pub or_nil : Option (List Text) → List Text
or_nil none = []
or_nil (some l) = l

-- the slice with its elements replaced
abbrev pub refill : Option (List Text) → List Text → Option (List Text)
refill none l = none
refill (some _) l = some l

abbrev pub outside : ℕ → ℕ → ℤ → Bool
outside least most n = ltb_ℤ n (pos least) || ltb_ℤ (pos most) n

module _ ⦃u : Unicode⦄ where
  -- the loop over the keywords: those kept so far, newest first, which are the keys of `seen`
  unfoldable pub normalize_keywords : List Text → List Text → Option (List Text)
  unfolding to_lower trim_space text_eq
  normalize_keywords seen [] = some []
  normalize_keywords seen (raw ∷ rest) =
      let keyword = to_lower (trim_space raw) in
      let others = normalize_keywords (keyword ∷ seen) rest in
      if text_eq keyword [] || ltb 100 (rune_count keyword) || any (text_eq keyword) seen
      then none
      else mapped (◌∷◌ keyword) others

  abbrev pub bad_numbers : ℕ → ReviewInput → Bool
  bad_numbers clock input =
      outside 0 100 input.keyword_count
      || outside 1 5_000 input.word_count
      || outside 0 100 input.completion_score
      || is_zero input.updated_at
      || ltb (clock + 5 * 60 * second) input.updated_at
      || ltb_ℤ input.keyword_count (pos (length (or_nil input.matched_keywords)))

  abbrev pub bad_transcript : Text → Bool
  bad_transcript s = text_eq s [] || not (valid_string s) || ltb 20_000 (rune_count s)

  -- normalizeAndValidate: the normalized input, or none where it returns false
  unfoldable pub normalize_and_validate : ℕ → ReviewInput → Option ReviewInput
  unfolding trim_space text_eq valid_string normalize_keywords
  normalize_and_validate clock input =
      let transcript = trim_space input.transcript in
      let keywords = normalize_keywords [] (or_nil input.matched_keywords) in
      if bad_transcript transcript || bad_numbers clock input
      then none
      else mapped
          (λ (l : List Text). record input {
            transcript = transcript;
            matched_keywords = refill input.matched_keywords l;
          })
          keywords

-- UpdateRetellReview: the SET part, and the statement with the constraints of the columns; nil is
-- sent as NULL
abbrev pub is_fresh : ReviewInput → RetellAttempt → Bool
is_fresh e r = leb r.review_client_updated_at (micros e.updated_at)

unfoldable pub merge_retell_review : ℕ → ReviewInput → RetellAttempt → RetellAttempt
unfolding micros
merge_retell_review now e r =
    let fresh = is_fresh e r in
    record r {
      transcript = if fresh then some e.transcript else r.transcript;
      matched_keywords = if fresh then or_nil e.matched_keywords else r.matched_keywords;
      keyword_count = if fresh then e.keyword_count else r.keyword_count;
      word_count = if fresh then e.word_count else r.word_count;
      completion_score = if fresh then e.completion_score else r.completion_score;
      review_client_updated_at = max r.review_client_updated_at (micros e.updated_at);
      server_updated_at = now;
    }

abbrev pub review_columns_ok : RetellAttempt → Bool
review_columns_ok r =
    not (outside 0 100 r.keyword_count)
    && not (outside 0 5_000 r.word_count)
    && not (outside 0 100 r.completion_score)
    && not (ltb_ℤ r.keyword_count (pos (length r.matched_keywords)))

abbrev pub is_null : Option (List Text) → Bool
is_null none = true
is_null (some l) = false

-- whether PostgreSQL takes the texts
abbrev pub sendable : ReviewInput → Bool
sendable e = storable e.transcript && all (λ s. storable s) (or_nil e.matched_keywords)

abbrev pub reviewed_row :
    ℕ
    → (RetellAttempt → Bool)
    → ReviewInput
    → Accounts
    → Option RetellAttempt
    → Outcome Error (RetellAttempt × Accounts)
reviewed_row now hits e d none = err no_rows
reviewed_row now hits e d (some r) =
    guard
      ((is_fresh e r && is_null e.matched_keywords)
        || not (review_columns_ok (merge_retell_review now e r)))
      violation
      (ok (
        merge_retell_review now e r,
        record d { retells = update_rows hits (merge_retell_review now e) d.retells },
      ))

unfoldable pub update_retell_review : ℕ → ℕ → ℕ → ReviewInput → Query Accounts RetellAttempt
unfolding merge_retell_review micros storable
update_retell_review now u a e d =
    let hits = retell_key u a in
    guard (not (sendable e)) violation (reviewed_row now hits e d (find? hits d.retells))
