-- ===== src/Publish/Service.antt =====
-- Service.Publish (internal/publishing/service.go): a document and its audio from the CMS become a
-- published content. The object store, encoding/json, time.Parse and the digest of the audio are
-- arguments, and so is what other sessions commit before the transaction begins.
use el_backend.Publish.Statements.{
  delete_content_series, delete_content_categories, upsert_content, upsert_source,
  insert_publication,
}
use el_backend.Publish.Assets.{
  update_publication, insert_publish_event, link_content_asset, delete_other_audio, upsert_asset,
}
use el_backend.Publish.Taxonomy.{
  upsert_featured_dictionary, link_taxonomy, source_attribution, nullable_string, content_slug,
}
use el_backend.Publish.Slug.{safe_segment}
use el_backend.Database.{
  ◌>>◌, Tx, pure, no_rows, on_error, statement, already_reserved, Error, ◌>>=◌,
}
use el_backend.Catalogue.Schema.{
  Catalogue, published, review_required, article, managed_cache, Asset, CmsPublication, SourceItem,
  Content,
}
use el_backend.Publish.Document.{
  is_blank, Sentence, GrammarPoint, Paragraph, FeaturedWord, Document,
}
use el_backend.Text.{codes, Unicode, Text}
use el_backend.Base.Int.{negsuc, pos, ℤ}
use el_backend.Base.{
  false, ◌==◌, if◌then◌else◌, ◌-◌, Option, ◌/◌, ◌++◌, true, some, none, ◌+◌, List, Bool, ℕ,
}

-- the metadata that is stored with a content
pub record Metadata : Type 0 where
  pub source_content_id : Text
  pub manifest_etag : Text
  pub series : Text
  pub topics : List Text
  pub learning_goals : List Text
  pub quality_score : ℤ
  pub word_count : ℤ
  pub timeline_version : Text
  pub featured_words : List FeaturedWord
  pub grammar_version : ℤ
  pub grammar_points : List GrammarPoint

-- json.Marshal, time.Parse, and whether PostgreSQL refuses the document as jsonb, as it does one with
-- the character NUL
pub record Marshal : Type 0 where
  pub document_json : Document → Text
  pub body_json : List Paragraph → Text
  pub transcript_json : List Sentence → Text
  pub metadata_json : Metadata → Text
  pub parse_rfc3339 : Text → Option ℕ
  pub refused : Document → Bool

pub record Result : Type 0 where
  pub content_id : ℕ
  pub revision : ℕ
  pub environment : Text
  pub duplicate : Bool

abbrev pub metadata_of : Document → Metadata
metadata_of d = record {
  source_content_id = d.source_content_id;
  manifest_etag = d.manifest_etag;
  series = d.series;
  topics = d.topics;
  learning_goals = d.learning_goals;
  quality_score = d.quality_score;
  word_count = d.word_count;
  timeline_version = d.timeline.version;
  featured_words = d.featured_words;
  grammar_version = d.grammar_version;
  grammar_points = d.grammar_points;
}

-- (DurationMS + 999) / 1000, which Go rounds towards zero
unfoldable pub whole_seconds : ℤ → ℤ
whole_seconds (pos n) = pos ((n + 999) / 1000)
whole_seconds (negsuc n) = let q = (n - 998) / 1000 in if q == 0 then pos 0 else negsuc (q - 1)

module _ ⦃u : Unicode⦄ where
  unfoldable pub object_key : Document → Text
  unfolding safe_segment
  object_key d =
      codes "published/audio/"
      ++ safe_segment d.source
      ++ codes "/"
      ++ safe_segment d.source_content_id
      ++ codes "/"
      ++ d.audio.sha256
      ++ codes ".mp3"

  unfoldable pub audio_url : Document → Text
  unfolding safe_segment
  audio_url d =
      codes "cms://"
      ++ safe_segment d.source
      ++ codes "/"
      ++ safe_segment d.source_content_id
      ++ codes "/audio"

  abbrev pub publication_row : Marshal → Text → Document → CmsPublication
  publication_row json key d = record {
    idempotency_key = key;
    source_content_id = d.source_content_id;
    source = d.source;
    manifest_etag = d.manifest_etag;
    document = json.document_json d;
    content_id = none;
    content_revision = none;
  }

  abbrev pub source_row : ℕ → Document → SourceItem
  source_row now d = record {
    id = 0;
    source = d.source;
    canonical_url = d.source_url;
    external_id = some d.source_content_id;
    page_type = some (codes "audio_article");
    first_seen_at = now;
    last_seen_at = now;
    fetched = true;
  }

  abbrev pub content_row : Marshal → ℕ → ℕ → Document → Content
  content_row json now source d = record {
    id = 0;
    source_item_id = source;
    slug = content_slug d;
    content_type = article;
    title = d.title;
    summary = some d.description;
    level = nullable_string d.level;
    published_at = json.parse_rfc3339 d.published_at;
    duration_seconds = some (whole_seconds d.timeline.duration_ms);
    body_blocks = json.body_json d.paragraphs;
    transcript_blocks = json.transcript_json d.timeline.sentences;
    metadata = json.metadata_json (metadata_of d);
    rights_status = review_required;
    attribution = source_attribution d;
    status = published;
    revision = 1;
    source_updated_at = json.parse_rfc3339 d.published_at;
    created_at = now;
    updated_at = now;
    released_at = some now;
  }

  abbrev pub asset_row : ℕ → Document → Asset
  asset_row now d = record {
    id = 0;
    kind = codes "audio";
    source_url = audio_url d;
    source_host = codes "cms";
    mime_type = some d.audio.mime_type;
    byte_size = some d.audio.byte_size;
    duration_seconds = some (whole_seconds d.timeline.duration_ms);
    width = none;
    height = none;
    quality_label = some (codes "original");
    checksum = some d.audio.sha256;
    delivery_policy = managed_cache;
    rights_status = review_required;
    attribution = source_attribution d;
    object_key = some (object_key d);
    availability = codes "available";
    created_at = now;
    updated_at = now;
  }

  -- ON CONFLICT DO NOTHING: no row comes back for a key that is taken
  abbrev pub taken : Error → Error
  taken no_rows = already_reserved
  taken e = e

  -- the asset, its link to the content, the event, and the end of the publication
  unfoldable pub audio_body : ℕ → Text → Document → ℕ → ℕ → Tx Catalogue (Unit {0})
  unfolding ◌>>=◌ statement upsert_asset delete_other_audio link_content_asset insert_publish_event
      update_publication audio_url object_key source_attribution whole_seconds
  audio_body now key d content revision = do
    asset ← statement (upsert_asset (asset_row now d))
    statement (delete_other_audio content asset)
    statement (link_content_asset content asset)
    statement (insert_publish_event now content revision)
    statement (update_publication key content revision)

  unfoldable pub publish_body : Marshal → Text → ℕ → Text → Document → Tx Catalogue Result
  unfolding ◌>>=◌ statement on_error pure insert_publication upsert_source upsert_content
      delete_content_categories delete_content_series link_taxonomy upsert_featured_dictionary
      audio_body content_slug source_attribution whole_seconds is_blank
  publish_body json environment now key d = do
    on_error taken (statement (insert_publication (json.refused d) (publication_row json key d)))
    source ← statement (upsert_source (source_row now d))
    (content, revision) ← statement (upsert_content (content_row json now source d))
    statement (delete_content_categories content)
    statement (delete_content_series content)
    link_taxonomy now content d
    upsert_featured_dictionary now content d
    audio_body now key d content revision
    pure (record {
      content_id = content;
      revision = revision;
      environment = environment;
      duplicate = false;
    })
