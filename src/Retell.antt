-- ===== src/Retell.antt =====
-- The upload of a recording (PUT /me/retell-attempts/{attemptId}, internal/httpapi/retell.go), with
-- its statement (identity.sql.go). The object store is an argument, and so is uuid.UUID.String.
use el_backend.Database.Table.{upsert_row, merged, any}
use el_backend.Identity.Queries.{user_exists}
use el_backend.Database.{violation, World, Error, Query, on_pool}
use el_backend.Identity.Service.{Moment}
use el_backend.Identity.Input.{unix_epoch, second, micros}
use el_backend.Base.{
  find?, false, err, ◌≢◌, ok, true, ◌&&◌, guard, ◌+◌, not, ltb, ◌++◌, ◌≡◌, ◌^◌, [], some, ◌||◌,
  ◌==◌, none, ◌*◌, Outcome, Bool, ◌∷◌, if◌then◌else◌, ℕ, Option,
}
use el_backend.Text.{codes, trim_space, Text, text_eq}
use el_backend.Identity.Schema.{Accounts, RetellAttempt}
use el_backend.Base.Int.{pos, ltb_ℤ, ℤ}
pub mod Kept
pub mod Stored
pub mod Lost
pub mod Review
pub mod Requests
pub mod Removed
pub mod Account

-- recordingObjectStore: Put and Delete tell whether they succeeded. `holds` says which keys have an
-- object; the laws are what an S3 store promises.
pub record ObjectStore (O : Type 0) : Type 0 where
  pub put : Text → O → Bool × O
  pub remove : Text → O → Bool × O
  pub holds : Text → O → Bool
  pub put_holds : (k : Text) (o : O) → (put k o).0 ≡ true → holds k (put k o).1 ≡ true
  pub put_others : (k j : Text) (o : O) → j ≢ k → holds j (put k o).1 ≡ holds j o
  pub remove_gone : (k : Text) (o : O) → (remove k o).0 ≡ true → holds k (remove k o).1 ≡ false
  pub remove_others : (k j : Text) (o : O) → j ≢ k → holds j (remove k o).1 ≡ holds j o

-- the headers, where they parse as an id, a 32-bit number and a time
pub record Headers : Type 0 where
  pub attempt_id : Option ℕ
  pub content_id : Option ℕ
  pub duration : Option ℤ
  pub created_at : Option ℕ
  pub content_length : ℤ
  pub content_type : Text

pub record Upload : Type 0 where
  pub attempt_id : ℕ
  pub content_id : ℕ
  pub duration : ℤ
  pub created_at : ℕ

pub data Answer : Type 0 where
  data_row : RetellAttempt → Answer
  validation_error recording_too_large unsupported_media_type : Answer
  media_store_unavailable internal_error : Answer

abbrev pub max_recording_bytes : ℕ
max_recording_bytes = 25 * 2 ^ 20

abbrev pub check_duration : ℤ → Option ℤ
check_duration d = if ltb_ℤ d (pos 0) || ltb_ℤ (pos (60 * 60 * 1000)) d then none else some d

abbrev pub check_created : ℕ → ℕ → Option ℕ
check_created clock created = if ltb (clock + 5 * 60 * second) created then none else some created

-- parseRetellUpload
unfoldable pub parse_retell_upload : ℕ → Headers → Option Upload
parse_retell_upload clock h = elim h.attempt_id [
  | none ↦ none
  | some attempt ↦ elim h.content_id [
    | none ↦ none
    | some content ↦ elim h.duration [
      | none ↦ none
      | some raw ↦ elim (check_duration raw) [
        | none ↦ none
        | some duration ↦ elim h.created_at [
          | none ↦ none
          | some time ↦ elim (check_created clock time) [
            | none ↦ none
            | some created ↦ some (record {
              attempt_id = attempt;
              content_id = content;
              duration = duration;
              created_at = created;
            })
          ]
        ]
      ]
    ]
  ]
]

-- strings.TrimSpace(strings.Split(header, ";")[0])
unfoldable pub before_semicolon : Text → Text
before_semicolon [] = []
before_semicolon (c ∷ s) = if c == 0x3b then [] else c ∷ before_semicolon s

abbrev pub is_audio : Text → Bool
is_audio s =
    text_eq s (codes "audio/mp4")
    || text_eq s (codes "audio/x-m4a")
    || text_eq s (codes "audio/m4a")

-- UpsertRetellAttempt: the DO UPDATE part, and the statement with the constraints of the table
abbrev pub retell_key : ℕ → ℕ → RetellAttempt → Bool
retell_key u a r = r.user_id == u && r.id == a

unfoldable pub merge_retell : ℕ → RetellAttempt → RetellAttempt → RetellAttempt
merge_retell now e r = record r {
  content_id = e.content_id;
  object_key = e.object_key;
  duration_milliseconds = e.duration_milliseconds;
  byte_size = e.byte_size;
  content_type = e.content_type;
  created_at = e.created_at;
  server_updated_at = now;
}

unfoldable pub upsert_retell_attempt : ℕ → RetellAttempt → Query Accounts RetellAttempt
unfolding merge_retell text_eq
upsert_retell_attempt now e d =
    let hits = retell_key e.user_id e.id in
    let merge = merge_retell now e in
    guard
      (not (user_exists e.user_id d && d.has_content e.content_id)
        || ltb_ℤ e.duration_milliseconds (pos 0)
        || not (ltb_ℤ (pos 0) e.byte_size)
        || any (λ (r : RetellAttempt). text_eq r.object_key e.object_key && not (hits r)) d.retells)
      violation
      (ok (
        merged e merge (find? hits d.retells),
        record d { retells = upsert_row hits e merge d.retells },
      ))

-- the row that the handler inserts; the review columns are the defaults of the migrations
abbrev pub retell_row : ℕ → ℕ → Text → Headers → Text → Upload → RetellAttempt
retell_row now u key h content_type up = record {
  user_id = u;
  id = up.attempt_id;
  content_id = up.content_id;
  object_key = key;
  duration_milliseconds = up.duration;
  byte_size = h.content_length;
  content_type = content_type;
  created_at = micros up.created_at;
  server_updated_at = now;
  transcript = none;
  matched_keywords = [];
  keyword_count = pos 0;
  word_count = pos 0;
  completion_score = pos 0;
  review_client_updated_at = unix_epoch;
}

module _ (uuid_text : ℕ → Text) where
  -- fmt.Sprintf("retell/%s/%s.m4a", user.ID, attemptID)
  abbrev pub object_key : ℕ → ℕ → Text
  object_key u a = codes "retell/" ++ (uuid_text u ++ (codes "/" ++ (uuid_text a ++ codes ".m4a")))

module _ {O : Type 0} (store : ObjectStore O) where
  -- what follows Put: the statement, and the object's removal where the statement fails
  unfoldable pub after_query :
      Text → Outcome Error RetellAttempt × World Accounts → O → Answer × (World Accounts × O)
  after_query key (ok row, w) o = (data_row row, (w, o))
  after_query key (err e, w) o = (internal_error, (w, (store.remove key o).1))

  unfoldable pub after_put :
      ℕ → RetellAttempt → World Accounts → Bool × O → Answer × (World Accounts × O)
  unfolding after_query upsert_retell_attempt on_pool
  after_put now row w (false, o) = (media_store_unavailable, (w, o))
  after_put now row w (true, o) =
      after_query row.object_key (on_pool (upsert_retell_attempt now row) w) o

module _ {O : Type 0} (store : ObjectStore O) (uuid_text : ℕ → Text) where
  unfoldable pub store_recording :
      Moment → ℕ → Headers → Upload → World Accounts × O → Answer × (World Accounts × O)
  unfolding after_put before_semicolon trim_space text_eq
  store_recording t u h up (w, o) =
      let content_type = trim_space (before_semicolon h.content_type) in
      let key = object_key uuid_text u up.attempt_id in
      let row = retell_row t.now u key h content_type up in
      if not (ltb_ℤ (pos 0) h.content_length) || ltb_ℤ (pos max_recording_bytes) h.content_length
      then (recording_too_large, (w, o))
      else if not (is_audio content_type)
      then (unsupported_media_type, (w, o))
      else after_put store t.now row w (store.put key o)

  -- the handler
  unfoldable pub put_recording :
      Moment → ℕ → Headers → World Accounts × O → Answer × (World Accounts × O)
  unfolding store_recording parse_retell_upload
  put_recording t u h s = elim (parse_retell_upload t.clock h) [
    | none ↦ (validation_error, s)
    | some up ↦ store_recording t u h up s
  ]
