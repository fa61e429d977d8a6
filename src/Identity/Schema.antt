-- ===== src/Identity/Schema.antt =====
-- The rows of the account tables (internal/repository/dbgen/models.go), one record per table.
-- An id (uuid) is a number, and uuid.Nil is 0; timestamps are microseconds, as PostgreSQL keeps them.
use el_backend.Base.{ℕ, Bool, List, Option}
use el_backend.Base.Int.{ℤ}
use el_backend.Text.{Text}

abbrev pub Bytes : Type 0
Bytes = List ℕ

pub record User : Type 0 where
  pub id : ℕ
  pub apple_subject : Text
  pub updated_at : ℕ

pub record Session : Type 0 where
  pub user_id : ℕ
  pub token_hash : Bytes
  pub expires_at : ℕ

pub record TokenUse : Type 0 where
  pub token_hash : Bytes
  pub user_id : ℕ

pub record Bookmark : Type 0 where
  pub user_id : ℕ
  pub content_id : ℕ
  pub updated_at : ℕ

pub record LearningProgress : Type 0 where
  pub user_id : ℕ
  pub content_id : ℕ
  pub position_seconds : ℤ
  pub completed : Bool
  pub client_updated_at : ℕ
  pub server_updated_at : ℕ

pub record VocabularyEntry : Type 0 where
  pub id : ℕ
  pub user_id : ℕ
  pub word : Text
  pub normalized_word : Text
  pub definition : Option Text
  pub sentence_context : Option Text
  pub content_id : Option ℕ
  pub content_title : Option Text
  pub created_at : ℕ
  pub updated_at : ℕ
  pub review_stage : ℤ
  pub review_count : ℤ
  pub lapse_count : ℤ
  pub review_due_at : ℕ
  pub last_reviewed_at : Option ℕ
  pub review_client_updated_at : ℕ

pub record GrammarAttempt : Type 0 where
  pub user_id : ℕ
  pub id : ℕ
  pub content_id : ℕ
  pub content_title : Text
  pub correct_count : ℤ
  pub question_count : ℤ
  pub created_at : ℕ
  pub updated_at : ℕ

pub record RetellAttempt : Type 0 where
  pub user_id : ℕ
  pub id : ℕ
  pub content_id : ℕ
  pub object_key : Text
  pub duration_milliseconds : ℤ
  pub byte_size : ℤ
  pub content_type : Text
  pub created_at : ℕ
  pub server_updated_at : ℕ
  pub transcript : Option Text
  pub matched_keywords : List Text
  pub keyword_count : ℤ
  pub word_count : ℤ
  pub completion_score : ℤ
  pub review_client_updated_at : ℕ

-- the strings that the services write into entity_type and operation
pub data EntityType : Type 0 where
  bookmark progress vocabulary grammar_attempt : EntityType

pub data Operation : Type 0 where
  upsert delete : Operation

pub record UserEvent : Type 0 where
  pub sequence : ℕ
  pub user_id : ℕ
  pub entity_type : EntityType
  pub entity_id : ℕ
  pub operation : Operation

pub record Credential : Type 0 where
  pub id : ℕ
  pub user_id : Option ℕ
  pub encrypted_refresh_token : Bytes
  pub attempts : ℕ
  pub next_attempt_at : ℕ

-- The account tables. `has_content` says which ids have a row of `contents`, to which the foreign
-- keys lead; `next_sequence` is the identity column of user_events, and `next_id` an unused uuid.
pub record Accounts : Type 0 where
  pub users : List User
  pub sessions : List Session
  pub token_uses : List TokenUse
  pub bookmarks : List Bookmark
  pub progress : List LearningProgress
  pub vocabulary : List VocabularyEntry
  pub grammar : List GrammarAttempt
  pub retells : List RetellAttempt
  pub events : List UserEvent
  pub credentials : List Credential
  pub has_content : ℕ → Bool
  pub next_sequence : ℕ
  pub next_id : ℕ
