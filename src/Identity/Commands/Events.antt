-- ===== src/Identity/Commands/Events.antt =====
-- Every write that succeeds records one event, behind all events before it.
use el_backend.Database.Keeps.{with_tables-reads, after-eq-ok}
use el_backend.Identity.Vocabulary.{entry_row, validate_vocabulary}
use el_backend.Identity.Input.{
  validate_vocabulary_review, validate_grammar_attempt, VocabularyReviewInput,
}
use el_backend.Text.{Unicode}
use el_backend.Identity.Service.{
  progress_row, review_row, grammar_row, missing_entry, bookmark_operation, Moment, bookmark_write,
}
use el_backend.Identity.Commands.{
  review, learn, practise, reviewed_entry, listen, remove, effect, drop_value, mark, Command,
  with_event,
}
use el_backend.Database.{with_tables, map_err, Error, Query}
use el_backend.Identity.Learning.{
  Review, upsert_grammar_attempt, upsert_progress, delete_vocabulary_entry, upsert_vocabulary_entry,
  update_vocabulary_review,
}
use el_backend.Identity.Schema.{
  vocabulary, upsert, grammar_attempt, progress, delete, bookmark, VocabularyEntry, Operation,
  GrammarAttempt, LearningProgress, EntityType, Accounts,
}
use el_backend.Base.{
  none, some, err, Option, ◌∙◌, Outcome, inr, ◌+◌, false, inl, true, [], Outcome-cases, ◌∷◌, Bool,
  arith, ◌++◌, ok, ◌≡◌, ℕ,
}
use el_backend.Identity.Queries.{delete_bookmark, upsert_bookmark, create_user_event}

-- the statements that change rows leave the log and the users alone
pub record SameLog (d d' : Accounts) : Type 0 where
  pub events : d'.events ≡ d.events
  pub next_sequence : d'.next_sequence ≡ d.next_sequence
  pub users : d'.users ≡ d.users

module _ (d d' : Accounts) where
  SameLog-bookmark :
      (now u c : ℕ) (enabled : Bool) (x : Unit {0})
      → bookmark_write now u c enabled d ≡ ok (x, d')
      → SameLog d d'
  unfolding upsert_bookmark delete_bookmark
  SameLog-bookmark now u c true x h = ground arith
  SameLog-bookmark now u c false x h = ground arith

  SameLog-progress :
      (now : ℕ) (e r : LearningProgress) → upsert_progress now e d ≡ ok (r, d') → SameLog d d'
  unfolding upsert_progress
  SameLog-progress now e r h = ground arith

  SameLog-grammar :
      (now : ℕ) (e r : GrammarAttempt) → upsert_grammar_attempt now e d ≡ ok (r, d') → SameLog d d'
  unfolding upsert_grammar_attempt
  SameLog-grammar now e r h = ground arith

  SameLog-entry :
      (now : ℕ) (e r : VocabularyEntry)
      → upsert_vocabulary_entry now e d ≡ ok (r, d')
      → SameLog d d'
  unfolding upsert_vocabulary_entry
  SameLog-entry now e r h = ground arith

  SameLog-review :
      (u entry : ℕ) (e : Review) (r : VocabularyEntry)
      → update_vocabulary_review u entry e d ≡ ok (r, d')
      → SameLog d d'
  unfolding update_vocabulary_review
  SameLog-review u entry e r h = ground arith

  SameLog-remove :
      (u entry : ℕ) (x : Unit {0}) → delete_vocabulary_entry u entry d ≡ ok (x, d') → SameLog d d'
  unfolding delete_vocabulary_entry
  SameLog-remove u entry x h = ground arith

-- the event at the end of the log
pub record Records (u : ℕ) (kind : EntityType) (operation : Operation) (d d' : Accounts)
    : Type 0 where
  pub entity : ℕ
  pub logged :
      d'.events
      ≡ d.events
        ++ record {
          sequence = d.next_sequence;
          user_id = u;
          entity_type = kind;
          entity_id = entity;
          operation = operation;
        }
          ∷ []
  pub advanced : d'.next_sequence ≡ d.next_sequence + 1

with_event-Records :
    {A : Type 0} (u : ℕ) (kind : EntityType) (entity : A → ℕ) (operation : Operation)
    (q : Query Accounts A)
    → ((d d' : Accounts) (a : A) → q d ≡ ok (a, d') → SameLog d d')
    → (d d' : Accounts) (a : A) → with_event u kind entity operation q d ≡ ok (a, d')
    → Records u kind operation d d'
unfolding create_user_event
with_event-Records u kind entity operation q keeps d d' a h = elim (Outcome-cases (q d)) [
  | inl ((b, d1), e) ↦
      let k = keeps d d1 b e in
      record { entity = entity b; logged = ground arith; advanced = ground arith }
  | inr (c, e) ↦ absurd (ground arith)
]

pub drop_value-eq-ok :
    {A : Type 0} (r : Outcome Error (A × Accounts)) (d : Accounts)
    → drop_value r ≡ ok (tt, d)
    → (a : A) × (r ≡ ok (a, d))
drop_value-eq-ok (ok (a, d')) d h = (a, ground arith)
drop_value-eq-ok (err e) d h = absurd (ground arith)

SameLog-trans : {a b c : Accounts} → SameLog a b → SameLog b c → SameLog a c
SameLog-trans h k = record {
  events = k.events ∙ h.events;
  next_sequence = k.next_sequence ∙ h.next_sequence;
  users = k.users ∙ h.users;
}

Records-before :
    {u : ℕ} {kind : EntityType} {operation : Operation} {a b c : Accounts}
    → SameLog a b
    → Records u kind operation b c
    → Records u kind operation a c
Records-before h k = record { entity = k.entity; logged = ground arith; advanced = ground arith }

-- what a command writes into its event
abbrev pub kind_of : Command → EntityType
kind_of (mark c enabled) = bookmark
kind_of (listen input) = progress
kind_of (practise input) = grammar_attempt
kind_of _ = vocabulary

abbrev pub operation_of : Command → Operation
operation_of (mark c enabled) = bookmark_operation enabled
operation_of (remove entry) = delete
operation_of _ = upsert

module _ ⦃unicode : Unicode⦄ (t : Moment) (u : ℕ) where
  reviewed_entry-SameLog :
      (input : Option VocabularyReviewInput) (row : VocabularyEntry) (d d' : Accounts)
      (r : VocabularyEntry)
      → reviewed_entry t u input row d ≡ ok (r, d')
      → SameLog d d'
  reviewed_entry-SameLog none row d d' r h = ground arith
  reviewed_entry-SameLog (some input) row d d' r h =
      let (x, d1, e, k) = after-eq-ok (with_tables (validate_vocabulary_review input) d) _ h in
      rw (with_tables-reads _ d d1 x e) at (SameLog-review d1 d' u row.id _ r k)

  pub map_err-eq-ok :
      {A : Type 0} (f : Error → Error) (r : Outcome Error A) (a : A) → map_err f r ≡ ok a → r ≡ ok a
  map_err-eq-ok f (ok x) a h = h
  map_err-eq-ok f (err e) a h = absurd (ground arith)

  -- A write that succeeds appends one event of its user, its kind and its operation to the log, with
  -- the next number, and leaves the events before it as they were.
  pub effect-Records :
      (command : Command) (d d' : Accounts)
      → effect t u command d ≡ ok (tt, d')
      → Records u (kind_of command) (operation_of command) d d'
  unfolding effect
  effect-Records (mark c enabled) d d' h =
      let (a, e) = drop_value-eq-ok _ d' h in
      with_event-Records u bookmark (λ _. c) (bookmark_operation enabled)
        (bookmark_write t.now u c enabled) (λ x y. SameLog-bookmark x y t.now u c enabled) d d' a e
  effect-Records (listen input) d d' h =
      let row = progress_row t.now u input in
      let (a, e) = drop_value-eq-ok _ d' h in
      with_event-Records u progress (λ _. input.content_id) upsert (upsert_progress t.now row)
        (λ x y. SameLog-progress x y t.now row) d d' a e
  effect-Records (practise input) d d' h =
      let row = grammar_row t.now u input in
      let (a, e) = drop_value-eq-ok _ d' h in
      let (x, d1, v, k) = after-eq-ok (with_tables (validate_grammar_attempt input) d) _ e in
      rw (with_tables-reads _ d d1 x v) at (
        with_event-Records u grammar_attempt (λ _. input.id) upsert
          (upsert_grammar_attempt t.now row) (λ y z. SameLog-grammar y z t.now row) d1 d' a k)
  effect-Records (learn input) d d' h =
      let (a, e) = drop_value-eq-ok _ d' h in
      let (n, d1, v, k) = after-eq-ok (with_tables (validate_vocabulary input) d) _ e in
      let new = entry_row t u n input in
      let (row, d2, v2, k2) = after-eq-ok (upsert_vocabulary_entry t.now new d1) _ k in
      rw (with_tables-reads _ d d1 n v) at (
        Records-before (SameLog-entry d1 d2 t.now new row v2) (
          with_event-Records u vocabulary (λ (r : VocabularyEntry). r.id) upsert
            (reviewed_entry t u input.review row) (reviewed_entry-SameLog input.review row) d2 d' a
            k2))
  effect-Records (review entry input) d d' h =
      let row = review_row input in
      let (a, e) = drop_value-eq-ok _ d' h in
      let (x, d1, v, k) = after-eq-ok (with_tables (validate_vocabulary_review input) d) _ e in
      rw (with_tables-reads _ d d1 x v) at (
        with_event-Records u vocabulary (λ _. entry) upsert
          (λ y. map_err missing_entry (update_vocabulary_review u entry row y))
          (λ y z r s. SameLog-review y z u entry row r (map_err-eq-ok missing_entry _ (r, z) s)) d1
          d' a k)
  effect-Records (remove entry) d d' h =
      let (a, e) = drop_value-eq-ok _ d' h in
      with_event-Records u vocabulary (λ _. entry) delete (delete_vocabulary_entry u entry)
        (λ x y. SameLog-remove x y u entry) d d' a e
