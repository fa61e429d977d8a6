-- ===== src/Retell/Requests.antt =====
-- The other requests on recordings (internal/httpapi/retell.go): the list, the review, the download
-- and the removal, with their queries (identity.sql.go). uuid.Parse and Open are arguments; the ranges
-- and conditions of http.ServeContent are left out.
use el_backend.Database.Table.{delete_rows}
use el_backend.Identity.Service.{Moment}
use el_backend.Identity.Schema.{RetellAttempt, Accounts}
use el_backend.Database.{no_rows, Query, World, on_pool, Error}
use el_backend.Text.{text_eq, Text, trim_space, Unicode}
use el_backend.Retell.{retell_key, ObjectStore}
use el_backend.Retell.Review.{ReviewInput, normalize_and_validate, update_retell_review}
use el_backend.Base.Sort.{stable_sort}
use el_backend.Base.{
  if◌then◌else◌, ◌&&◌, ltb, ◌==◌, ok, false, some, err, none, true, [], Bool, Option, List, ℕ,
  Outcome, find?, filter,
}

pub data Returned (A : Type 0) : Type 0 where
  returned : A → Returned A
  invalid recording_not_found store_unavailable query_failed : Returned A

-- ListRetellAttempts
unfoldable pub list_retell_attempts : ℕ → Option ℕ → Query Accounts (List RetellAttempt)
unfolding stable_sort
list_retell_attempts u content d =
    let here : RetellAttempt → Bool =
      λ r. elim content [ none ↦ true | some c ↦ r.content_id == c ] in
    ok (
      stable_sort (λ (a b : RetellAttempt). ltb b.created_at a.created_at)
          (filter (λ (r : RetellAttempt). r.user_id == u && here r) d.retells),
      d,
    )

-- GetRetellAttempt
unfoldable pub get_retell_attempt : ℕ → ℕ → Query Accounts RetellAttempt
get_retell_attempt u a d = elim (find? (retell_key u a) d.retells) [
  | none ↦ err no_rows
  | some r ↦ ok (r, d)
]

-- DeleteRetellAttempt
abbrev pub without_attempt : ℕ → ℕ → Accounts → Accounts
without_attempt u a d = record d { retells = delete_rows (retell_key u a) d.retells }

unfoldable pub delete_retell_attempt : ℕ → ℕ → Query Accounts Text
delete_retell_attempt u a d = elim (find? (retell_key u a) d.retells) [
  | none ↦ err no_rows
  | some r ↦ ok (r.object_key, without_attempt u a d)
]

-- GET /me/retell-attempts, with the parameter contentId
abbrev pub content_filter : (Text → Option ℕ) → Text → Option (Option ℕ)
content_filter parse_uuid raw = elim (text_eq raw []) [
  | true ↦ some none
  | false ↦ elim (parse_uuid raw) [ none ↦ none | some c ↦ some (some c) ]
]

abbrev pub listed_rows :
    Outcome Error (List RetellAttempt) × World Accounts
    → Returned (List RetellAttempt) × World Accounts
listed_rows (err e, w) = (query_failed, w)
listed_rows (ok rows, w) = (returned rows, w)

unfoldable pub list_recordings :
    (Text → Option ℕ) → ℕ → Text → World Accounts → Returned (List RetellAttempt) × World Accounts
unfolding trim_space text_eq list_retell_attempts on_pool
list_recordings parse_uuid u raw w = elim (content_filter parse_uuid (trim_space raw)) [
  | none ↦ (invalid, w)
  | some content ↦ listed_rows (on_pool (list_retell_attempts u content) w)
]

-- PUT /me/retell-attempts/{attemptId}/review, from the id and the body, where they can be decoded, on
abbrev pub is_no_rows : Error → Bool
is_no_rows no_rows = true
is_no_rows _ = false

abbrev pub reviewed_answer :
    Outcome Error RetellAttempt × World Accounts → Returned RetellAttempt × World Accounts
reviewed_answer (err e, w) = (if is_no_rows e then recording_not_found else query_failed, w)
reviewed_answer (ok r, w) = (returned r, w)

module _ ⦃unicode : Unicode⦄ where
  unfoldable pub review_recording :
      Moment
      → ℕ
      → Option ℕ
      → Option ReviewInput
      → World Accounts
      → Returned RetellAttempt × World Accounts
  unfolding normalize_and_validate update_retell_review on_pool
  review_recording t u none body w = (invalid, w)
  review_recording t u (some a) none w = (invalid, w)
  review_recording t u (some a) (some input) w = elim (normalize_and_validate t.clock input) [
    | none ↦ (invalid, w)
    | some review ↦ reviewed_answer (on_pool (update_retell_review t.now u a review) w)
  ]

-- an object that Open has opened
pub record Opened : Type 0 where
  pub content_type : Text
  pub bytes : List ℕ

-- serveAudio
module _ {O : Type 0} (open_object : Text → O → Option Opened) where
  abbrev pub served : RetellAttempt → Option Opened → Returned Opened
  served row none = store_unavailable
  served row (some object) = returned (record object {
    content_type = if text_eq row.content_type [] then object.content_type else row.content_type;
  })

  abbrev pub open_row :
      Outcome Error RetellAttempt × World Accounts → O → Returned Opened × World Accounts
  open_row (err e, w) o = (recording_not_found, w)
  open_row (ok row, w) o = (served row (open_object row.object_key o), w)

  unfoldable pub serve_recording :
      ℕ → Option ℕ → World Accounts → O → Returned Opened × World Accounts
  unfolding text_eq get_retell_attempt on_pool
  serve_recording u none w o = (invalid, w)
  serve_recording u (some a) w o = open_row (on_pool (get_retell_attempt u a) w) o

-- DELETE /me/retell-attempts/{attemptId}
module _ {O : Type 0} (store : ObjectStore O) where
  abbrev pub Gone : Type 0
  Gone = Returned (Unit {0}) × (World Accounts × O)

  unfoldable pub delete_row : Outcome Error Text × World Accounts → O → Gone
  delete_row (err e, w) o = (query_failed, (w, o))
  delete_row (ok key, w) o = (returned tt, (w, o))

  unfoldable pub after_remove : ℕ → ℕ → World Accounts → Bool × O → Gone
  unfolding delete_row delete_retell_attempt on_pool
  after_remove u a w (false, o) = (store_unavailable, (w, o))
  after_remove u a w (true, o) = delete_row (on_pool (delete_retell_attempt u a) w) o

  unfoldable pub remove_row : ℕ → ℕ → Outcome Error RetellAttempt × World Accounts → O → Gone
  unfolding after_remove
  remove_row u a (err e, w) o = (recording_not_found, (w, o))
  remove_row u a (ok row, w) o = after_remove u a w (store.remove row.object_key o)

  unfoldable pub delete_recording : ℕ → Option ℕ → World Accounts × O → Gone
  unfolding remove_row get_retell_attempt on_pool
  delete_recording u none (w, o) = (invalid, (w, o))
  delete_recording u (some a) (w, o) = remove_row u a (on_pool (get_retell_attempt u a) w) o
