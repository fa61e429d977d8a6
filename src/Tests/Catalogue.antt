-- ===== src/Tests/Catalogue.antt =====
-- Runs of the public API: two published contents with their audio, and the log of their publication.
use el_backend.Text.Suffix.{
  cut_last_byte, rune_bytes, bytes_of, ends_double, trim_suffix, has_suffix,
}
use el_backend.Catalogue.Dictionary.Spec.{dictionary-AllDistinct, item_key}
use el_backend.Publish.Options.{AllDistinct}
use el_backend.Identity.Input.{matches_word, normalize_vocabulary_word}
use el_backend.Catalogue.Dictionary.{
  array_position, verb_bases, plural_bases, bases, dictionary_candidates, lookup_dictionary_entries,
  dictionary, first_entries, LookupAnswer,
}
use el_backend.Catalogue.Collect.{collect}
use el_backend.Catalogue.Contents.Rows.{IsReleased}
use el_backend.Base.Sort.{insert_sorted, stable_sort}
use el_backend.Catalogue.Contents.Cursors.{parse-format_cursor}
use el_backend.Database.{works}
use el_backend.Publish.Document.{GrammarPoint}
use el_backend.Catalogue.Goals.{goal_loop, content_learning_goals}
use el_backend.Catalogue.Contents.Walk.{walk-published_rows, walk}
use el_backend.Catalogue.Changes.{beyond, change_of, shown, parse_sequence}
use el_backend.Text.{
  byte_len, valid_string, lower_rune, to_lower, is_space, keep, trim_right, trim_left, trim_space,
  text_eq, codes, Text,
}
use el_backend.Catalogue.Schema.{
  DictionaryEntry, ContentStatus, review_required, managed_cache, article, Asset, PublishEvent,
  Content, ContentAsset, Catalogue,
}
use el_backend.Base.Int.{negsuc, pos, ℤ}
use el_backend.Catalogue.Queries.{Row, with_source, join_source, playable, listed}
use el_backend.Catalogue.Changes.Drain.{drain-change_log, drain, change_log}
use el_backend.Catalogue.Contents.{data_of, item_of, format_cursor, parse_cursor}
use el_backend.Catalogue.Codec.{Collation, bar, Codec, Json}
use el_backend.Catalogue.Media.Safe.{media-Safe, do_request-enough, Safe}
use el_backend.Catalogue.Released.{published_rows}
use el_backend.Catalogue.Media.{media, Outside, do_request, Url}
use el_backend.Catalogue.Goals.Spec.{content_learning_goals-Shown, Shown}
use el_backend.Text.Ascii.{ascii}
use el_backend.Base.{
  ok, ◌≤◌, ◌<◌, filter, ◌==◌, arith, ap, if◌then◌else◌, zero, not, map, Option, ◌≢◌, ◌≡◌, suc,
  length, all, List, ℕ, ◌∷◌, [], some, none, true, false, refl,
}

-- a codec that writes a number in strokes
abbrev strokes : ℕ → Text
strokes zero = []
strokes (suc n) = 0x31 ∷ strokes n

length-strokes : (n : ℕ) → length (strokes n) ≡ n
length-strokes zero = refl
length-strokes (suc n) = ap suc (length-strokes n)

strokes_no_bar : (n : ℕ) → all (λ c. not (c == bar)) (strokes n) ≡ true
strokes_no_bar zero = refl
strokes_no_bar (suc n) = strokes_no_bar n

abbrev sign : ℤ → Text
sign (pos n) = 0x2b ∷ strokes n
sign (negsuc n) = 0x2d ∷ strokes n

abbrev read_sign : Text → Option ℤ
read_sign [] = none
read_sign (c ∷ s) = some (if c == 0x2b then pos (length s) else negsuc (length s))

read-sign : (z : ℤ) → read_sign (sign z) ≡ some z
read-sign (pos n) = rw (length-strokes n) refl
read-sign (negsuc n) = rw (length-strokes n) refl

sign_nonempty : (z : ℤ) → sign z ≢ []
sign_nonempty (pos n) h = cc
sign_nonempty (negsuc n) h = cc

count-strokes : (n : ℕ) → ◌≡◌ {A = Option ℕ} (some (length (strokes n))) (some n)
count-strokes n = rw (length-strokes n) refl

instance abbrev plain : Codec
plain = record {
  encode = λ s. s;
  decode = some;
  format_nano = strokes;
  format_seconds = strokes;
  parse_time = λ s. some (length s);
  uuid_string = strokes;
  parse_uuid = λ s. some (length s);
  format_int = sign;
  parse_int = read_sign;
  decode-encode = λ s. refl;
  encode_nonempty = λ s h. h;
  parse-format_nano = count-strokes;
  parse-uuid_string = count-strokes;
  parse-format_int = read-sign;
  format_int_nonempty = sign_nonempty;
  nano_no_bar = strokes_no_bar;
  uuid_no_bar = strokes_no_bar;
}

-- the goals of every content, as they are stored
abbrev stored_goals : List Text
stored_goals = codes " Listening" ∷ codes "listening" ∷ codes "  " ∷ []

abbrev stored_points : List GrammarPoint
stored_points =
    record {
      kind = codes "tense";
      title = codes "Past";
      explanation = codes "e";
      example = codes "x";
      prompt = codes "p";
      answer = codes "a";
      options = [];
    }
    ∷ []

abbrev json : Json
json = record {
  goals_of = λ m. some (stored_goals, stored_points);
  grammar_of = λ m. some stored_points;
  featured_of = λ m. none;
  block_texts_of = λ m. none;
  match_featured = λ s. none;
}

abbrev item : ℕ → Text → ℕ → Content
item i slug at = record {
  id = i;
  source_item_id = 1;
  slug = slug;
  content_type = article;
  title = slug;
  summary = none;
  level = none;
  published_at = none;
  duration_seconds = some (pos 60);
  body_blocks = [];
  transcript_blocks = [];
  metadata = [];
  rights_status = review_required;
  attribution = codes "VOA";
  status = ContentStatus.published;
  revision = 1;
  source_updated_at = none;
  created_at = 0;
  updated_at = 0;
  released_at = some at;
}

abbrev audio : ℕ → Asset
audio i = record {
  id = i;
  kind = codes "audio";
  source_url = codes "cms://voa/one/audio";
  source_host = codes "cms";
  mime_type = none;
  byte_size = none;
  duration_seconds = none;
  width = none;
  height = none;
  quality_label = none;
  checksum = none;
  delivery_policy = managed_cache;
  rights_status = review_required;
  attribution = [];
  object_key = some (codes "one.mp3");
  availability = codes "available";
  created_at = 0;
  updated_at = 0;
}

abbrev link : ℕ → ContentAsset
link c = record { content_id = c; asset_id = 7; role = codes "audio"; position = pos 0 }

abbrev event : ℕ → ℕ → PublishEvent
event n c = record {
  sequence = n;
  entity_type = codes "content";
  entity_id = c;
  operation = codes "upsert";
  revision = some 1;
  published_at = 0;
}

abbrev shelf : Catalogue
shelf = record {
  contents = item 1 (codes "one") 10 ∷ item 2 (codes "two") 20 ∷ [];
  assets = audio 7 ∷ [];
  content_assets = link 1 ∷ link 2 ∷ [];
  categories = [];
  content_categories = [];
  series = [];
  content_series = [];
  source_items =
      record {
        id = 1;
        source = codes "voa";
        canonical_url = codes "https://learningenglish.voanews.com/a";
        external_id = none;
        page_type = none;
        first_seen_at = 0;
        last_seen_at = 0;
        fetched = true;
      }
      ∷ [];
  publish_events = event 3 1 ∷ event 4 2 ∷ [];
  publications = [];
  dictionary = [];
  forms = [];
  next_id = 10;
}

-- the later release comes first
latest_first : map (λ (r : Row). r.content.id) (published_rows shelf) ≡ 2 ∷ 1 ∷ []
unfolding published_rows listed playable text_eq join_source with_source stable_sort insert_sorted
latest_first = refl

few : length (published_rows shelf) < 3
unfolding published_rows listed playable text_eq join_source with_source stable_sort insert_sorted
few = omega arith

shelf-IsReleased : IsReleased shelf
unfolding listed playable text_eq
shelf-IsReleased = record {
  ids = (((λ h. omega arith), tt), (tt, tt));
  released = ((λ h. cc), ((λ h. cc), tt));
}

walk-published_rows_example : walk json 3 [] shelf ≡ map (item_of json) (published_rows shelf)
walk-published_rows_example = walk-published_rows json shelf shelf-IsReleased 3 few

few_changes : length (filter (beyond (pos 0)) (change_log shelf)) < 3
unfolding change_log shown listed playable text_eq stable_sort insert_sorted
few_changes = omega arith

from_start : parse_sequence [] ≡ some (pos 0)
unfolding parse_sequence
from_start = refl

drain-change_log_example :
    drain 3 [] shelf ≡ map change_of (filter (beyond (pos 0)) (change_log shelf))
drain-change_log_example =
    drain-change_log shelf (((λ h. omega arith), tt), (tt, tt)) 3 [] (pos 0) from_start few_changes

parse-format_cursor_example :
    (parse_cursor (format_cursor (some 20) 2) ≡ some (some (20, 2)))
    × (format_cursor (some 20) 2 ≢ [])
parse-format_cursor_example = parse-format_cursor 20 2

-- one goal is left of the two spellings, the blank one is dropped, and the grammar is added
goals_run : content_learning_goals json [] ≡ codes "listening" ∷ codes "grammar" ∷ []
unfolding content_learning_goals goal_loop collect text_eq trim_space trim_left trim_right keep
    is_space to_lower lower_rune
goals_run = refl

content_learning_goals-Shown_example :
    Shown stored_goals stored_points (content_learning_goals json [])
content_learning_goals-Shown_example =
    content_learning_goals-Shown json [] stored_goals stored_points refl

-- a host that sends every request on to another allowed host
abbrev mirror : Url
mirror = record {
  scheme = codes "https";
  host = codes "gdb.voanews.com";
  text = codes "https://gdb.voanews.com/a";
}

abbrev internet : Outside
internet = record {
  parse_url = λ s. some mirror;
  redirect_of = λ u. some mirror;
  fails = λ u. false;
  open_object = λ k. some (codes "audio/mpeg");
}

media-Safe_example : Safe shelf 7 (media internet true works (some 7) shelf)
media-Safe_example = media-Safe internet true works 7 shelf

do_request-enough_example : do_request internet 5 0 mirror ≡ do_request internet 9 0 mirror
do_request-enough_example =
    do_request-enough internet 5 9 0 mirror (omega arith) (omega arith) (omega arith)

instance abbrev codes_order : Collation
codes_order = record { text_less = λ s t. false }

abbrev sense : ℕ → Text → DictionaryEntry
sense i definition = record {
  id = i;
  normalized_word = codes "walk";
  word = codes "walk";
  part_of_speech = codes "verb";
  definition = definition;
  examples = [];
  source = codes "wordnet-3.1";
  source_reference = [];
  sense_rank = pos i;
  content_id = none;
  created_at = 0;
  updated_at = 0;
}

abbrev lexicon : Catalogue
lexicon = record shelf { dictionary = sense 1 (codes "To go") ∷ sense 2 (codes "to go") ∷ [] }

walk_word : normalize_vocabulary_word (codes "Walking") ≡ ok (codes "walking")
unfolding normalize_vocabulary_word trim_space trim_left trim_right keep is_space valid_string
    matches_word to_lower lower_rune
walk_word = refl

-- the base of the word is looked up, and the second spelling of the definition is left out
lookup_run :
    map
      (λ (e : DictionaryEntry). e.id)
      (first_entries []
        (lookup_dictionary_entries (dictionary_candidates (codes "walking") []) lexicon))
    ≡ 1 ∷ []
unfolding first_entries lookup_dictionary_entries dictionary_candidates collect bases plural_bases
    verb_bases has_suffix trim_suffix byte_len ends_double bytes_of rune_bytes cut_last_byte text_eq
    to_lower lower_rune trim_space trim_left trim_right keep is_space stable_sort insert_sorted
    array_position
lookup_run = refl

dictionary-AllDistinct_example :
    (a : LookupAnswer) × (dictionary works works (codes "Walking") lexicon ≡ data_of a)
    × (a.normalized_word ≡ codes "walking")
    × (length a.entries ≤ 16)
    × AllDistinct (map item_key a.entries)
dictionary-AllDistinct_example =
    dictionary-AllDistinct (codes "Walking") (codes "walking") lexicon walk_word
