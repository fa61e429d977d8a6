-- ===== src/Tests/Recordings.antt =====
-- Runs of an upload, with an object store that is the set of its keys.
use el_backend.Retell.Requests.{Opened, store_unavailable, serve_recording}
use el_backend.Retell.Lost.{upload_again, recording_lost}
use el_backend.Base.Int.{pos}
use el_backend.Text.Equality.{text_eq_refl}
use el_backend.Database.{answer, on_pool, World, lost}
use el_backend.Identity.Input.{micros, zero_time}
use el_backend.Identity.Schema.{RetellAttempt, Accounts}
use el_backend.Identity.Service.{Moment}
use el_backend.Retell.Kept.{store_recording-Upheld, Upheld}
use el_backend.Publish.Options.{text_eq-ne}
use el_backend.Retell.{
  data_row, merge_retell, upsert_retell_attempt, retell_key, retell_row, after_query, after_put,
  is_audio, object_key, before_semicolon, parse_retell_upload, store_recording, Upload, ObjectStore,
  Headers,
}
use el_backend.Base.{
  none, find?, Option, ◌+◌, ltb, ◌∷◌, [], Bool, true, false, ℕ, not, refl, ◌≡◌, ◌≢◌, some, ◌&&◌,
  ◌||◌,
}
use el_backend.Text.{is_space, trim_right, trim_left, trim_space, Text, text_eq, codes}

other_key : (k j : Text) → j ≢ k → text_eq j k ≡ false
other_key k j n = text_eq-ne j k n

abbrev pub keys : ObjectStore (Text → Bool)
keys = record {
  put = λ k o. (true, λ j. text_eq j k || o j);
  remove = λ k o. (true, λ j. not (text_eq j k) && o j);
  holds = λ k o. o k;
  put_holds = λ k o e. rw (text_eq_refl k) refl;
  put_others = λ k j o n. rw (text_eq-ne j k n) refl;
  remove_gone = λ k o e. rw (text_eq_refl k) refl;
  remove_others = λ k j o n. rw (text_eq-ne j k n) refl;
}

abbrev uuid_text : ℕ → Text
uuid_text n = n ∷ []

abbrev headers : Headers
headers = record {
  attempt_id = some 3;
  content_id = some 2;
  duration = some (pos 1_000);
  created_at = some (zero_time + 8);
  content_length = pos 4_096;
  content_type = codes "audio/mp4; codecs=aac";
}

abbrev upload : Upload
upload = record { attempt_id = 3; content_id = 2; duration = pos 1_000; created_at = zero_time + 8 }

abbrev pub no_objects : Text → Bool
no_objects k = false

abbrev account : Accounts
account = record {
  users = record { id = 7; apple_subject = codes "a"; updated_at = 0 } ∷ [];
  sessions = [];
  token_uses = [];
  bookmarks = [];
  progress = [];
  vocabulary = [];
  grammar = [];
  retells = [];
  events = [];
  credentials = [];
  has_content = λ c. ltb c 3;
  next_sequence = 1;
  next_id = 8;
}

abbrev day : Moment
day = record { now = 60; clock = zero_time + 9 }

parsed : parse_retell_upload day.clock headers ≡ some upload
unfolding parse_retell_upload
parsed = refl

is_audio_run : is_audio (trim_space (before_semicolon headers.content_type)) ≡ true
unfolding before_semicolon trim_space trim_left trim_right is_space text_eq
is_audio_run = refl

store_recording-Upheld_example : Upheld keys (object_key uuid_text 7 3) (
    store_recording keys uuid_text day 7 headers upload
      (record { tables = account; faults = [] }, no_objects))
store_recording-Upheld_example =
    store_recording-Upheld keys uuid_text day 7 headers upload
      (record { tables = account; faults = [] }) no_objects tt

abbrev first_row : RetellAttempt
first_row = retell_row 60 7 (object_key uuid_text 7 3) headers (codes "audio/mp4") upload

abbrev after_first : World Accounts
after_first = record { tables = record account { retells = first_row ∷ [] }; faults = [] }

abbrev first_stored : Text → Bool
first_stored = (keys.put (object_key uuid_text 7 3) no_objects).1

abbrev opened_keys : Text → (Text → Bool) → Option Opened
opened_keys k o = elim (o k) [
  | true ↦ some (record { content_type = codes "audio/mp4"; bytes = [] })
  | false ↦ none
]

first_upload :
    store_recording keys uuid_text day 7 headers upload
      (record { tables = account; faults = [] }, no_objects)
    ≡ (data_row first_row, (after_first, first_stored))
unfolding store_recording before_semicolon trim_space trim_left trim_right is_space text_eq
    after_put after_query upsert_retell_attempt merge_retell on_pool answer micros
first_upload = refl

recording_lost_example :
    (keys.holds first_row.object_key first_stored ≡ true)
    × (find?
          (retell_key 7 3)
          (upload_again keys uuid_text day 7 headers upload
            (lost ∷ [])
            (after_first.tables, first_stored)).1.0.tables.retells
        ≡ some first_row)
    × (keys.holds first_row.object_key
          (upload_again keys uuid_text day 7 headers upload
            (lost ∷ [])
            (after_first.tables, first_stored)).1.1
        ≡ false)
    × ((serve_recording opened_keys 7
          (some 3)
          (record {
            tables =
                (upload_again keys uuid_text day 7 headers upload
                  (lost ∷ [])
                  (after_first.tables, first_stored)).1.0.tables;
            faults = [];
          })
          (upload_again keys uuid_text day 7 headers upload
            (lost ∷ [])
            (after_first.tables, first_stored)).1.1).0
        ≡ store_unavailable)
recording_lost_example =
    recording_lost keys uuid_text opened_keys (λ k o h. rw (opened_keys, h) refl) day day 7 headers
      headers upload upload (record { tables = account; faults = [] }) no_objects first_row []
      after_first first_stored first_upload refl refl refl is_audio_run refl refl
