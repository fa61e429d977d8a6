-- ===== src/Identity/Login/Tokens.antt =====
-- Of all that writes, only a login marks an identity token as used, and nothing unmarks one.
use el_backend.Database.Table.{any}
use el_backend.Database.Keeps.{after-eq-ok}
use el_backend.Identity.Commands.Events.{drop_value-eq-ok}
use el_backend.Database.Refine.{tolerate}
use el_backend.Identity.Commands.{
  remove, review, learn, practise, reviewed_entry, listen, mark, learn_query, Command, with_event,
  practise_query, effect, drop_value,
}
use el_backend.Identity.Input.{
  VocabularyReviewInput, VocabularyInput, ProgressInput, GrammarAttemptInput, MigrationInput,
}
use el_backend.Identity.Service.{
  missing_entry, review_row, progress_row, grammar_row, bookmark_write, Moment,
}
use el_backend.Identity.Schema.{
  delete, vocabulary, bookmark, upsert, progress, grammar_attempt, TokenUse, Operation,
  LearningProgress, VocabularyEntry, GrammarAttempt, EntityType, Accounts, Bytes,
}
use el_backend.Text.{text_eq, Unicode}
use el_backend.Identity.Login.{SealedToken, put_credential}
use el_backend.Identity.Learning.{
  Review, update_vocabulary_review, upsert_progress, upsert_vocabulary_entry,
  delete_vocabulary_entry, upsert_grammar_attempt,
}
use el_backend.Database.{each_query, map_err, then_query, with_tables, Error, Query, kills}
use el_backend.Identity.Queries.{
  delete_bookmark, create_user_event, create_session, upsert_bookmark,
}
use el_backend.Base.{
  ◌==◌, ap, ◌&&◌, [], none, some, false, inr, ◌∷◌, Option, true, inl, ◌∙◌, Outcome-cases, Bool,
  List, ◌≡◌, err, arith, ok, ℕ, Outcome,
}
use el_backend.Identity.Login.Atomic.{migrate_query, dropped}

abbrev pub is_used : Bytes → Accounts → Bool
is_used hash d = any (λ (r : TokenUse). text_eq r.token_hash hash) d.token_uses

-- the token is marked as used, by this user
abbrev pub used_by : Bytes → ℕ → TokenUse → Bool
used_by hash u r = text_eq r.token_hash hash && r.user_id == u

abbrev pub UsedBy : Bytes → ℕ → Accounts → Type 0
UsedBy hash u d = any (used_by hash u) d.token_uses ≡ true

pub UsedBy-is_used : (hash : Bytes) (u : ℕ) (d : Accounts) → UsedBy hash u d → is_used hash d ≡ true
UsedBy-is_used hash u d h = from d.token_uses h
  where
    from :
        (uses : List TokenUse)
        → any (used_by hash u) uses ≡ true
        → any (λ (r : TokenUse). text_eq r.token_hash hash) uses ≡ true
    from [] h = absurd (ground arith)
    from (r ∷ uses) h = ground (arith, from uses)

pub UsedBy-same :
    (hash : Bytes) (u : ℕ) (d d' : Accounts)
    → d'.token_uses ≡ d.token_uses
    → UsedBy hash u d
    → UsedBy hash u d'
UsedBy-same hash u d d' e h = ap (any (used_by hash u)) e ∙ h

-- `q` leaves the used tokens as they are
abbrev pub Keeps : {A : Type 0} → Query Accounts A → Type 0
Keeps {A} q =
    (d : Accounts) (a : A) (d' : Accounts) → q d ≡ ok (a, d') → d'.token_uses ≡ d.token_uses

pub Keeps-then :
    {A B : Type 0} (q : Query Accounts A) (f : A → Query Accounts B)
    → Keeps q
    → ((a : A) → Keeps (f a))
    → Keeps (then_query q f)
Keeps-then q f h k d b d' e =
    let (a, d1, x, y) = after-eq-ok (q d) f e in k a d1 b d' y ∙ h d a d1 x

pub Keeps-ok : {A : Type 0} (a : A) → Keeps (λ d. ok (a, d))
Keeps-ok a d b d' e = ground arith

pub Keeps-with_tables : {A : Type 0} (r : Outcome Error A) → Keeps (with_tables r)
Keeps-with_tables (ok a) d b d' e = ground arith
Keeps-with_tables (err c) d b d' e = absurd (ground arith)

pub Keeps-each :
    {A : Type 0} (f : A → Query Accounts (Unit {0}))
    → ((a : A) → Keeps (f a))
    → (xs : List A) → Keeps (each_query f xs)
Keeps-each f h [] = Keeps-ok tt
Keeps-each f h (x ∷ xs) = Keeps-then (f x) (λ _. each_query f xs) (h x) (λ _. Keeps-each f h xs)

Keeps-map_err :
    {A : Type 0} (f : Error → Error) (q : Query Accounts A) → Keeps q → Keeps (λ d. map_err f (q d))
Keeps-map_err f q h d a d' e = elim (Outcome-cases (q d)) [
  | inl ((b, d1), x) ↦ ground (arith, h d b d1)
  | inr (c, x) ↦ absurd (ground arith)
]

Keeps-tolerate : {A : Type 0} (q : Query Accounts A) → Keeps q → Keeps (λ d. tolerate (q d) d)
unfolding kills
Keeps-tolerate q h d a d' e = elim (Outcome-cases (q d)) [
  | inl ((b, d1), x) ↦ ground (arith, h d b d1)
  | inr (c, x) ↦ ground arith
]

Keeps-event :
    (u : ℕ) (kind : EntityType) (entity : ℕ) (operation : Operation)
    → Keeps (create_user_event u kind entity operation)
unfolding create_user_event
Keeps-event u kind entity operation d a d' e = ground arith

Keeps-mark : (now u c : ℕ) (enabled : Bool) → Keeps (bookmark_write now u c enabled)
unfolding upsert_bookmark delete_bookmark
Keeps-mark now u c true d a d' e = ground arith
Keeps-mark now u c false d a d' e = ground arith

Keeps-progress : (now : ℕ) (row : LearningProgress) → Keeps (upsert_progress now row)
unfolding upsert_progress
Keeps-progress now row d a d' e = ground arith

Keeps-grammar : (now : ℕ) (row : GrammarAttempt) → Keeps (upsert_grammar_attempt now row)
unfolding upsert_grammar_attempt
Keeps-grammar now row d a d' e = ground arith

Keeps-entry : (now : ℕ) (row : VocabularyEntry) → Keeps (upsert_vocabulary_entry now row)
unfolding upsert_vocabulary_entry
Keeps-entry now row d a d' e = ground arith

Keeps-review : (u entry : ℕ) (row : Review) → Keeps (update_vocabulary_review u entry row)
unfolding update_vocabulary_review
Keeps-review u entry row d a d' e = ground arith

Keeps-remove : (u entry : ℕ) → Keeps (delete_vocabulary_entry u entry)
unfolding delete_vocabulary_entry
Keeps-remove u entry d a d' e = ground arith

pub Keeps-credential : (now u : ℕ) (token : SealedToken) → Keeps (put_credential now u token)
unfolding put_credential
Keeps-credential now u token d a d' e = ground arith

pub Keeps-session : (u : ℕ) (hash : Bytes) (expires : ℕ) → Keeps (create_session u hash expires)
unfolding create_session
Keeps-session u hash expires d a d' e = ground arith

Keeps-with_event :
    {A : Type 0} (u : ℕ) (kind : EntityType) (entity : A → ℕ) (operation : Operation)
    (q : Query Accounts A)
    → Keeps q
    → Keeps (with_event u kind entity operation q)
Keeps-with_event u kind entity operation q h =
    Keeps-then q _ h
      (λ a. Keeps-then _ _ (Keeps-event u kind (entity a) operation) (λ _. Keeps-ok a))

Keeps-dropped : {A : Type 0} (q : Query Accounts A) → Keeps q → Keeps (dropped q)
Keeps-dropped q h = Keeps-then q _ h (λ _. Keeps-ok tt)

Keeps-drop_value : {A : Type 0} (q : Query Accounts A) → Keeps q → Keeps (λ d. drop_value (q d))
Keeps-drop_value q h d a d' e = let (b, x) = drop_value-eq-ok (q d) d' e in h d b d' x

module _ ⦃unicode : Unicode⦄ (t : Moment) (u : ℕ) where
  Keeps-learn : (input : VocabularyInput) → Keeps (learn_query t u input)
  Keeps-learn input = Keeps-then _ _ (Keeps-with_tables _) λ n.
      Keeps-then _ _ (Keeps-entry t.now _)
        λ row. Keeps-with_event u vocabulary _ upsert _ (part input.review row)
    where
      part :
          (r : Option VocabularyReviewInput) (row : VocabularyEntry)
          → Keeps (reviewed_entry t u r row)
      part none row = Keeps-ok row
      part (some r) row =
          Keeps-then _ _ (Keeps-with_tables _) (λ _. Keeps-review u row.id (review_row r))

  Keeps-practise : (input : GrammarAttemptInput) → Keeps (practise_query t u input)
  Keeps-practise input = Keeps-then _ _ (Keeps-with_tables _) λ _.
      Keeps-with_event u grammar_attempt _ upsert _
        (Keeps-grammar t.now (grammar_row t.now u input))

  Keeps-listen :
      (input : ProgressInput)
      → Keeps (
          with_event u progress
            (λ _. input.content_id)
            upsert
            (upsert_progress t.now (progress_row t.now u input)))
  Keeps-listen input =
      Keeps-with_event u progress _ upsert _ (Keeps-progress t.now (progress_row t.now u input))

  pub Keeps-effect : (command : Command) → Keeps (effect t u command)
  unfolding effect
  Keeps-effect (mark c enabled) =
      Keeps-drop_value _ (Keeps-with_event u bookmark _ _ _ (Keeps-mark t.now u c enabled))
  Keeps-effect (listen input) = Keeps-drop_value _ (Keeps-listen input)
  Keeps-effect (practise input) = Keeps-drop_value _ (Keeps-practise input)
  Keeps-effect (learn input) = Keeps-drop_value _ (Keeps-learn input)
  Keeps-effect (review entry input) = Keeps-drop_value _ (
      Keeps-then _ _ (Keeps-with_tables _) λ _.
        Keeps-with_event u vocabulary _ upsert _
          (Keeps-map_err missing_entry _ (Keeps-review u entry (review_row input))))
  Keeps-effect (remove entry) =
      Keeps-drop_value _ (Keeps-with_event u vocabulary _ delete _ (Keeps-remove u entry))

  pub Keeps-migrate : (input : MigrationInput) → Keeps (migrate_query t u input)
  unfolding upsert_bookmark
  Keeps-migrate input =
      Keeps-then _ _
        (Keeps-each _
          (λ c.
            Keeps-then _ _ (Keeps-mark t.now u c true)
              (λ _. Keeps-tolerate _ (Keeps-event u bookmark c upsert)))
          input.bookmarks)
        λ _.
          Keeps-then _ _ (Keeps-each _ (λ p. Keeps-dropped _ (Keeps-listen p)) input.progress) λ _.
            Keeps-then _ _ (Keeps-each _ (λ e. Keeps-dropped _ (Keeps-learn e)) input.vocabulary)
              λ _. Keeps-each _ (λ a. Keeps-dropped _ (Keeps-practise a)) input.grammar_attempts
