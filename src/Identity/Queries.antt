-- ===== src/Identity/Queries.antt =====
-- The statements of internal/repository/dbgen/identity.sql.go that write, as functions of the
-- tables, with the constraints of db/migrations that they can violate. `now` is now().
use el_backend.Base.{
  ℕ, ◌+◌, Bool, not, ◌&&◌, ◌||◌, Option, none, some, [], ◌∷◌, ◌++◌, Outcome, ok, err, guard, ltb,
  ◌==◌, find?,
}
use el_backend.Text.{Text, text_eq}
use el_backend.Database.{Error, no_rows, violation, Query}
use el_backend.Database.Table.{upsert_row, delete_rows, any, merged}
use el_backend.Identity.Schema.{
  Bytes, User, Session, TokenUse, Bookmark, LearningProgress, VocabularyEntry, GrammarAttempt,
  EntityType, Operation, UserEvent, Accounts,
}

-- keys of the tables
abbrev pub is_user : ℕ → User → Bool
is_user u r = r.id == u

abbrev pub user_exists : ℕ → Accounts → Bool
user_exists u d = any (is_user u) d.users

abbrev pub progress_key : ℕ → ℕ → LearningProgress → Bool
progress_key u c r = r.user_id == u && r.content_id == c

abbrev pub bookmark_key : ℕ → ℕ → Bookmark → Bool
bookmark_key u c r = r.user_id == u && r.content_id == c

abbrev pub grammar_key : ℕ → ℕ → GrammarAttempt → Bool
grammar_key u a r = r.user_id == u && r.id == a

-- the primary key of vocabulary_entries is the id; the unique key is the user and the word
abbrev pub vocabulary_id : ℕ → ℕ → VocabularyEntry → Bool
vocabulary_id u e r = r.user_id == u && r.id == e

abbrev pub vocabulary_word : ℕ → Text → VocabularyEntry → Bool
vocabulary_word u w r = r.user_id == u && text_eq r.normalized_word w

-- UpsertAppleUser
unfoldable pub upsert_apple_user : ℕ → Text → Query Accounts User
upsert_apple_user now subject d =
    let new : User = record { id = d.next_id; apple_subject = subject; updated_at = now } in
    let hits = λ (r : User). text_eq r.apple_subject subject in
    let touch = λ (r : User). record r { updated_at = now } in
    ok (
      merged new touch (find? hits d.users),
      record d { users = upsert_row hits new touch d.users; next_id = d.next_id + 1 },
    )

-- CreateSession
unfoldable pub create_session : ℕ → Bytes → ℕ → Query Accounts Session
create_session u hash expires d =
    let new : Session = record { user_id = u; token_hash = hash; expires_at = expires } in
    guard (not (user_exists u d) || any (λ (r : Session). text_eq r.token_hash hash) d.sessions)
      violation (ok (new, record d { sessions = d.sessions ++ new ∷ [] }))

-- RecordAppleIdentityTokenUse
unfoldable pub record_token_use : Bytes → ℕ → Query Accounts (Unit {0})
record_token_use hash u d =
    guard (not (user_exists u d) || any (λ (r : TokenUse). text_eq r.token_hash hash) d.token_uses)
      violation
      (ok (
        tt,
        record d { token_uses = d.token_uses ++ record { token_hash = hash; user_id = u } ∷ [] },
      ))

-- GetUserBySessionHash
abbrev pub live_session : ℕ → Bytes → Session → Bool
live_session now hash r = text_eq r.token_hash hash && ltb now r.expires_at

abbrev pub joined : Option Session → Accounts → Outcome Error (User × Accounts)
joined none d = err no_rows
joined (some s) d = elim (find? (is_user s.user_id) d.users) [
  | none ↦ err no_rows
  | some u ↦ ok (u, d)
]

unfoldable pub get_user_by_session_hash : ℕ → Bytes → Query Accounts User
get_user_by_session_hash now hash d = joined (find? (live_session now hash) d.sessions) d

-- DeleteSession
unfoldable pub delete_session : Bytes → Query Accounts (Unit {0})
delete_session hash d = ok (
  tt,
  record d { sessions = delete_rows (λ (r : Session). text_eq r.token_hash hash) d.sessions },
)

-- UpsertBookmark
unfoldable pub upsert_bookmark : ℕ → ℕ → ℕ → Query Accounts (Unit {0})
upsert_bookmark now u c d =
    let new : Bookmark = record { user_id = u; content_id = c; updated_at = now } in
    guard (not (user_exists u d && d.has_content c)) violation (
      ok (
        tt,
        record d {
          bookmarks =
              upsert_row (bookmark_key u c) new (λ (r : Bookmark). record r { updated_at = now })
                d.bookmarks;
        },
      ))

-- DeleteBookmark
unfoldable pub delete_bookmark : ℕ → ℕ → Query Accounts (Unit {0})
delete_bookmark u c d = ok (tt, record d { bookmarks = delete_rows (bookmark_key u c) d.bookmarks })

-- CreateUserEvent
unfoldable pub create_user_event : ℕ → EntityType → ℕ → Operation → Query Accounts ℕ
create_user_event u kind entity operation d =
    let new : UserEvent = record {
      sequence = d.next_sequence;
      user_id = u;
      entity_type = kind;
      entity_id = entity;
      operation = operation;
    } in
    guard (not (user_exists u d)) violation (
      ok (
        d.next_sequence,
        record d { events = d.events ++ new ∷ []; next_sequence = d.next_sequence + 1 },
      ))
