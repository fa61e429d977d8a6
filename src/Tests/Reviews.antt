-- ===== src/Tests/Reviews.antt =====
-- Runs of the review and the removal of a recording, and of the end of an account.
use el_backend.Retell.Review.Accepted.{review_accepted, Carried}
use el_backend.Retell.Account.{delete_account}
use el_backend.Retell.Account.Forgotten.{delete_account-Leaves, Leaves}
use el_backend.Retell.Removed.{delete_recording-Removal, Removal}
use el_backend.Retell.Requests.{
  review_recording, query_failed, delete_retell_attempt, get_retell_attempt, delete_row,
  after_remove, remove_row, delete_recording,
}
use el_backend.Tests.Recordings.{keys}
use el_backend.Database.{violation, works, unheard, answer, on_pool}
use el_backend.Identity.Input.{micros, zero_time}
use el_backend.Base.Int.{pos}
use el_backend.Text.{
  storable, Text, lower_rune, to_lower, valid_string, text_eq, is_space, trim_right, trim_left,
  trim_space, codes,
}
use el_backend.Identity.Schema.{Accounts, RetellAttempt}
use el_backend.Text.Ascii.{ascii}
use el_backend.Base.{err, leb, List, Bool, ◌+◌, ◌∷◌, [], refl, ◌≡◌, some, none, true, ltb}
use el_backend.Retell.Review.{
  normalize_keywords, ReviewInput, normalize_and_validate, update_retell_review,
}

abbrev sent : ReviewInput
sent = record {
  transcript = codes " I went home ";
  matched_keywords = some (codes "Home" ∷ []);
  keyword_count = pos 2;
  word_count = pos 3;
  completion_score = pos 50;
  updated_at = zero_time + 8;
}

abbrev normal : ReviewInput
normal = record sent {
  transcript = codes "I went home";
  matched_keywords = some (codes "home" ∷ []);
}

accepted_review : normalize_and_validate (zero_time + 9) sent ≡ some normal
unfolding normalize_and_validate normalize_keywords trim_space trim_left trim_right is_space text_eq
    valid_string to_lower lower_rune
accepted_review = refl

abbrev attempt : RetellAttempt
attempt = record {
  user_id = 7;
  id = 3;
  content_id = 2;
  object_key = codes "k";
  duration_milliseconds = pos 1_000;
  byte_size = pos 4_096;
  content_type = codes "audio/mp4";
  created_at = 1;
  server_updated_at = 1;
  transcript = none;
  matched_keywords = [];
  keyword_count = pos 0;
  word_count = pos 0;
  completion_score = pos 0;
  review_client_updated_at = 0;
}

abbrev one_attempt : Accounts
one_attempt = record {
  users = record { id = 7; apple_subject = codes "a"; updated_at = 0 } ∷ [];
  sessions = [];
  token_uses = [];
  bookmarks = [];
  progress = [];
  vocabulary = [];
  grammar = [];
  retells = attempt ∷ [];
  events = [];
  credentials = [];
  has_content = λ c. ltb c 3;
  next_sequence = 1;
  next_id = 8;
}

review_accepted_example :
    ((raw : List Text)
      → sent.matched_keywords ≡ some raw
      → Carried 9 7 3 normal one_attempt attempt)
    × (sent.matched_keywords ≡ none
        → leb attempt.review_client_updated_at (micros normal.updated_at) ≡ true
        → update_retell_review 9 7 3 normal one_attempt ≡ err violation)
unfolding storable valid_string
review_accepted_example =
    review_accepted (zero_time + 9) 9 7 3 sent normal one_attempt attempt accepted_review refl refl
      refl

-- a body without the list is accepted, and the table refuses it
unlisted_run :
    (review_recording
      (record { now = 9; clock = zero_time + 9 })
      7
      (some 3)
      (some (record sent { matched_keywords = none }))
      (record { tables = one_attempt; faults = [] })).0
    ≡ query_failed
unfolding review_recording normalize_and_validate normalize_keywords trim_space trim_left trim_right
    is_space text_eq valid_string to_lower lower_rune on_pool answer update_retell_review storable
    micros
unlisted_run = refl

abbrev stored : Text → Bool
stored k = text_eq k (codes "k")

-- the object is removed, and the reply to the removal of the row is lost
unanswered_run :
    (delete_recording keys 7
      (some 3)
      (record { tables = one_attempt; faults = works ∷ unheard ∷ [] }, stored)).0
    ≡ query_failed
unfolding delete_recording remove_row after_remove delete_row on_pool answer get_retell_attempt
    delete_retell_attempt text_eq
unanswered_run = refl

delete_recording-Removal_example : Removal keys 7 3 one_attempt stored (
    delete_recording keys 7
      (some 3)
      (record { tables = one_attempt; faults = works ∷ unheard ∷ [] }, stored))
delete_recording-Removal_example =
    delete_recording-Removal keys 7 3
      (record { tables = one_attempt; faults = works ∷ unheard ∷ [] }) stored

delete_account-Leaves_example :
    Leaves keys 7 one_attempt
      (delete_account keys 7 (record { tables = one_attempt; faults = [] }, stored))
delete_account-Leaves_example =
    delete_account-Leaves keys 7 (record { tables = one_attempt; faults = [] }) stored
