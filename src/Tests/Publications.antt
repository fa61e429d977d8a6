-- ===== src/Tests/Publications.antt =====
-- A document from the CMS is published into an empty catalogue, and sent again.
use el_backend.Text.Equality.{text_eq_refl}
use el_backend.Publish.Goes.{Room, source_of, publish-goes}
use el_backend.Publish.Atomic.{effect}
use el_backend.Publish.Service.{object_key}
use el_backend.Publish.Taxonomy.{content_slug, source_attribution, title}
use el_backend.Publish.Service.{whole_seconds, audio_url}
use el_backend.Publish.Assets.{
  update_publication, insert_publish_event, link_content_asset, delete_other_audio, merge_asset,
  upsert_asset, upsert_dictionary,
}
use el_backend.Text.Fields.{join_with, fields_from, fields}
use el_backend.Publish.Taxonomy.{
  put_word, upsert_featured_dictionary, link_category, link_series, link_topic, link_level,
  link_taxonomy,
}
use el_backend.Publish.Slug.{
  trim_right_dashes, trim_left_dashes, trim_dashes, slug_loop, slugify, safe_segment,
}
use el_backend.Publish.Statements.{
  link_content_series, upsert_series, link_content_category, upsert_category, delete_content_series,
  delete_content_categories, merge_content, upsert_content, merge_source, upsert_source,
  insert_publication, select_publication,
}
use el_backend.Publish.Delivered.{publish-Delivered, Delivered}
use el_backend.Publish.Again.{publish_again}
use el_backend.Base.Int.{pos}
use el_backend.Tests.Recordings.{keys, no_objects}
use el_backend.Publish.Atomic.{publish_atomic, Ends}
use el_backend.Catalogue.Schema.{Catalogue}
use el_backend.Publish.Service.{audio_body, object_key, publish_body, Marshal, Result}
use el_backend.Text.{
  lower_rune, to_lower, valid_string, text_eq, is_space, keep, trim_right, trim_left, trim_space,
  byte_len, codes, Text,
}
use el_backend.Publish.Request.{
  after_transaction, after_audio, after_lookup, publish, Setting, Incoming,
}
use el_backend.Database.{
  kills, for_each, pure, on_error, settle, send, statement, continue_with, ◌>>=◌, commit, finish,
  begin, transact, answer, on_pool, World,
}
use el_backend.Publish.Document.{valid_grammar_point, hex_sha256, is_blank, validate, Document}
use el_backend.Text.Ascii.{ascii}
use el_backend.Base.{◌⊎◌, ◌≡◌, Bool, ◌∷◌, [], none, true, false, refl, ok}

abbrev pub key : Text
key = codes "0123456789abcdef0123456789abcdef"

abbrev pub digest : Text
digest = codes "00000000000000000000000000000000000000000000000000000000000000ff"

abbrev pub document : Document
document = record {
  schema_version = pos 1;
  source_content_id = codes "Item 7";
  source = codes "cms";
  source_url = codes "https://a.example/7";
  attribution = [];
  manifest_etag = codes "e1";
  title = codes "A Walk";
  description = codes "d";
  series = codes "Walks";
  level = codes "beginner";
  topics = codes "daily-life" ∷ [];
  learning_goals = codes "Listening" ∷ [];
  quality_score = pos 90;
  word_count = pos 120;
  published_at = [];
  paragraphs = record { index = pos 0; text = codes "p" } ∷ [];
  featured_words =
      record { word = codes "Walk"; part_of_speech = []; definition = codes "to go" } ∷ [];
  grammar_version = pos 0;
  grammar_points = [];
  timeline = record {
    version = codes "1";
    spoken_sentence_count = pos 1;
    duration_ms = pos 60_001;
    sentences = record { text = codes "p"; start_ms = none; end_ms = none; spoken = true } ∷ [];
  };
  audio = record { sha256 = digest; byte_size = pos 1_000; mime_type = codes "audio/mpeg" };
}

abbrev marshal : Marshal
marshal = record {
  document_json = λ d. d.title;
  body_json = λ ps. [];
  transcript_json = λ ss. [];
  metadata_json = λ m. m.source_content_id;
  parse_rfc3339 = λ s. none;
  refused = λ d. false;
}

abbrev pub setting : Setting (Text → Bool)
setting = record {
  json = marshal;
  environment = codes "test";
  store = keys;
  now = 500;
  meanwhile = λ d. d;
}

abbrev incoming : Incoming
incoming = record { key = key; document = document; digest = digest }

abbrev pub empty : Catalogue
empty = record {
  contents = [];
  assets = [];
  content_assets = [];
  categories = [];
  content_categories = [];
  series = [];
  content_series = [];
  source_items = [];
  publish_events = [];
  publications = [];
  dictionary = [];
  forms = [];
  next_id = 1;
}

abbrev pub quiet_world : World Catalogue
quiet_world = record { tables = empty; faults = [] }

abbrev pub first_result : Result
first_result = record {
  content_id = 2;
  revision = 1;
  environment = codes "test";
  duplicate = false;
}

valid_document : validate key document ≡ ok tt
unfolding validate byte_len is_blank trim_space trim_left trim_right keep is_space text_eq
    hex_sha256 valid_grammar_point
valid_document = refl

pub published_first : (publish setting incoming (quiet_world, no_objects)).0 ≡ ok first_result
unfolding publish validate byte_len is_blank trim_space trim_left trim_right keep is_space text_eq
    hex_sha256 valid_grammar_point on_pool answer select_publication valid_string after_lookup
    after_audio after_transaction transact begin finish commit publish_body object_key safe_segment
    slugify slug_loop trim_dashes trim_left_dashes trim_right_dashes to_lower lower_rune ◌>>=◌
    continue_with statement send settle on_error pure insert_publication upsert_source merge_source
    upsert_content merge_content delete_content_categories delete_content_series link_taxonomy
    link_level link_topic link_series link_category title fields fields_from join_with for_each
    upsert_category link_content_category upsert_series link_content_series
    upsert_featured_dictionary put_word upsert_dictionary audio_body upsert_asset merge_asset
    delete_other_audio link_content_asset insert_publish_event update_publication audio_url
    source_attribution whole_seconds content_slug kills
published_first = refl

publish_atomic_example :
    Ends setting incoming empty (publish setting incoming (quiet_world, no_objects))
publish_atomic_example = publish_atomic setting incoming quiet_world no_objects

publish-Delivered_example :
    (before : Catalogue) × ((before ≡ empty) ⊎ (before ≡ empty))
    × Delivered marshal
        (codes "test")
        500
        key
        document
        before
        first_result
        (publish setting incoming (quiet_world, no_objects)).1.0.tables
publish-Delivered_example =
    publish-Delivered setting incoming quiet_world no_objects first_result tt tt published_first
      refl

publish_again_example :
    publish setting incoming (
      record {
        tables = (publish setting incoming (quiet_world, no_objects)).1.0.tables;
        faults = [];
      },
      no_objects,
    )
    ≡ (
      ok (record { content_id = 2; revision = 1; environment = codes "test"; duplicate = true }),
      (
        record {
          tables = (publish setting incoming (quiet_world, no_objects)).1.0.tables;
          faults = [];
        },
        no_objects,
      ),
    )
publish_again_example =
    publish_again setting incoming quiet_world no_objects first_result published_first setting
      incoming refl valid_document no_objects

room : Room marshal 500 key document empty
unfolding valid_string whole_seconds source_of merge_source text_eq content_slug slugify slug_loop
    trim_dashes trim_left_dashes trim_right_dashes to_lower lower_rune trim_space trim_left
    trim_right keep is_space
room = record {
  accepted = refl;
  text = refl;
  free = refl;
  length = (refl, refl);
  no_conflict = refl;
}

publish-goes_example :
    (r : Result) × (after : Catalogue) × (effect setting incoming empty ≡ ok (r, after))
    × (publish setting incoming (quiet_world, no_objects) ≡ (
      ok r,
      (
        record { tables = after; faults = [] },
        (setting.store.put (object_key document) no_objects).1,
      ),
    ))
publish-goes_example =
    publish-goes setting incoming empty no_objects valid_document room refl (text_eq_refl digest)
      refl
