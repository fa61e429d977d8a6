-- ===== src/Catalogue/Schema.antt =====
-- The rows of the catalogue tables (internal/repository/dbgen/models.go), one record per table.
-- An id (uuid) is a number, timestamps are microseconds, and a jsonb column is the text it is sent
-- as; internal/publishing/service.go writes cms_publications, of which models.go has no struct.
use el_backend.Base.{ℕ, Bool, true, false, List, Option}
use el_backend.Base.Int.{ℤ}
use el_backend.Text.{Text}

pub data ContentStatus : Type 0 where
  draft review published hidden removed : ContentStatus

pub data ContentType : Type 0 where
  article lesson podcast video quiz : ContentType

pub data DeliveryPolicy : Type 0 where
  stream_proxy redirect managed_cache source_page_only : DeliveryPolicy

pub data RightsStatus : Type 0 where
  unknown review_required public_domain_verified third_party_restricted : RightsStatus

abbrev pub is_published : ContentStatus → Bool
is_published published = true
is_published _ = false

abbrev pub is_managed_cache : DeliveryPolicy → Bool
is_managed_cache managed_cache = true
is_managed_cache _ = false

abbrev pub is_stream_proxy : DeliveryPolicy → Bool
is_stream_proxy stream_proxy = true
is_stream_proxy _ = false

abbrev pub is_public_domain : RightsStatus → Bool
is_public_domain public_domain_verified = true
is_public_domain _ = false

pub record Asset : Type 0 where
  pub id : ℕ
  pub kind : Text
  pub source_url : Text
  pub source_host : Text
  pub mime_type : Option Text
  pub byte_size : Option ℤ
  pub duration_seconds : Option ℤ
  pub width : Option ℤ
  pub height : Option ℤ
  pub quality_label : Option Text
  pub checksum : Option Text
  pub delivery_policy : DeliveryPolicy
  pub rights_status : RightsStatus
  pub attribution : Text
  pub object_key : Option Text
  pub availability : Text
  pub created_at : ℕ
  pub updated_at : ℕ

pub record Category : Type 0 where
  pub id : ℕ
  pub slug : Text
  pub name : Text
  pub kind : Text
  pub parent_id : Option ℕ
  pub sort_order : ℤ
  pub status : Text

pub record Content : Type 0 where
  pub id : ℕ
  pub source_item_id : ℕ
  pub slug : Text
  pub content_type : ContentType
  pub title : Text
  pub summary : Option Text
  pub level : Option Text
  pub published_at : Option ℕ
  pub duration_seconds : Option ℤ
  pub body_blocks : Text
  pub transcript_blocks : Text
  pub metadata : Text
  pub rights_status : RightsStatus
  pub attribution : Text
  pub status : ContentStatus
  pub revision : ℕ
  pub source_updated_at : Option ℕ
  pub created_at : ℕ
  pub updated_at : ℕ
  pub released_at : Option ℕ

pub record ContentAsset : Type 0 where
  pub content_id : ℕ
  pub asset_id : ℕ
  pub role : Text
  pub position : ℤ

pub record ContentCategory : Type 0 where
  pub content_id : ℕ
  pub category_id : ℕ
  pub is_primary : Bool
  pub position : ℤ

pub record ContentSeries : Type 0 where
  pub content_id : ℕ
  pub series_id : ℕ
  pub position : ℤ

pub record DictionaryEntry : Type 0 where
  pub id : ℕ
  pub normalized_word : Text
  pub word : Text
  pub part_of_speech : Text
  pub definition : Text
  pub examples : List Text
  pub source : Text
  pub source_reference : Text
  pub sense_rank : ℤ
  pub content_id : Option ℕ
  pub created_at : ℕ
  pub updated_at : ℕ

pub record DictionaryForm : Type 0 where
  pub form : Text
  pub lemma : Text
  pub part_of_speech : Text

pub record PublishEvent : Type 0 where
  pub sequence : ℕ
  pub entity_type : Text
  pub entity_id : ℕ
  pub operation : Text
  pub revision : Option ℕ
  pub published_at : ℕ

pub record Series : Type 0 where
  pub id : ℕ
  pub slug : Text
  pub title : Text
  pub description : Option Text
  pub level : Option Text
  pub source_item_id : Option ℕ
  pub status : Text
  pub created_at : ℕ
  pub updated_at : ℕ

pub record SourceItem : Type 0 where
  pub id : ℕ
  pub source : Text
  pub canonical_url : Text
  pub external_id : Option Text
  pub page_type : Option Text
  pub first_seen_at : ℕ
  pub last_seen_at : ℕ
  pub fetched : Bool

pub record CmsPublication : Type 0 where
  pub idempotency_key : Text
  pub source_content_id : Text
  pub source : Text
  pub manifest_etag : Text
  pub document : Text
  pub content_id : Option ℕ
  pub content_revision : Option ℕ

-- `next_id` is a number that no row has, in place of gen_random_uuid() and of the identity columns
pub record Catalogue : Type 0 where
  pub contents : List Content
  pub assets : List Asset
  pub content_assets : List ContentAsset
  pub categories : List Category
  pub content_categories : List ContentCategory
  pub series : List Series
  pub content_series : List ContentSeries
  pub source_items : List SourceItem
  pub publish_events : List PublishEvent
  pub publications : List CmsPublication
  pub dictionary : List DictionaryEntry
  pub forms : List DictionaryForm
  pub next_id : ℕ
