-- ===== src/Catalogue/Pages.antt =====
-- The other public handlers (internal/httpapi/public.go): categories, series, search, and one content.
use el_backend.Catalogue.Lists.{
  TextSearch, search_published_contents, list_series_contents, list_category_contents, PlacedRow,
}
use el_backend.Catalogue.Goals.{content_grammar_points, content_featured_words}
use el_backend.Publish.Document.{GrammarPoint, FeaturedWord}
use el_backend.Catalogue.Queries.{
  Row, list_content_assets, get_series, AssetRow, get_published_content, list_series,
  list_categories,
}
use el_backend.Base.Int.{pos, ℤ}
use el_backend.Database.{unheard, lost, Error, works, Fault}
use el_backend.Text.{byte_len, trim_space, codes, text_eq, Unicode, Text}
use el_backend.Base.{
  some, ltb, map, none, ok, ◌++◌, ◌||◌, Outcome, [], if◌then◌else◌, Option, List, ℕ,
}
use el_backend.Catalogue.Schema.{Catalogue, ContentType, Series, Category}
use el_backend.Catalogue.Codec.{Json, Collation, Codec}
use el_backend.Catalogue.Contents.{
  validation_error, nullable_time, content_not_found, data_of, read, item_of, Response, Item,
}

pub record CategoryItem : Type 0 where
  pub id : ℕ
  pub slug : Text
  pub name : Text
  pub kind : Text
  pub sort_order : ℤ

pub record SeriesItem : Type 0 where
  pub id : ℕ
  pub slug : Text
  pub title : Text
  pub description : Option Text
  pub level : Option Text

pub record PlacedItem : Type 0 where
  pub item : Item
  pub position : ℤ

pub record SeriesPage : Type 0 where
  pub series : SeriesItem
  pub items : List PlacedItem

pub record AssetItem : Type 0 where
  pub id : ℕ
  pub kind : Text
  pub quality : Option Text
  pub playback_url : Text

pub record Detail : Type 0 where
  pub id : ℕ
  pub content_type : ContentType
  pub title : Text
  pub summary : Option Text
  pub level : Option Text
  pub published_at : Option Text
  pub released_at : Option Text
  pub duration_seconds : Option ℤ
  pub body_blocks : Text
  pub transcript_blocks : Text
  pub featured_words : List FeaturedWord
  pub grammar_points : List GrammarPoint
  pub metadata : Text
  pub assets : List AssetItem
  pub source_name : Text
  pub canonical_url : Text
  pub revision : ℕ

-- 304, or the content with its ETag
pub data Found : Type 0 where
  not_modified : Text → Found
  modified : Text → Detail → Found

abbrev pub category_item : Category → CategoryItem
category_item c = record {
  id = c.id;
  slug = c.slug;
  name = c.name;
  kind = c.kind;
  sort_order = c.sort_order;
}

abbrev pub series_item : Series → SeriesItem
series_item s = record {
  id = s.id;
  slug = s.slug;
  title = s.title;
  description = s.description;
  level = s.level;
}

-- a query for one row, whose errors all mean that there is none
abbrev pub one : {A B : Type 0} → Fault → Outcome Error A → (A → Response B) → Response B
one works (ok a) k = k a
one _ _ k = content_not_found

-- `assets, _ :=`: an error leaves the list empty
abbrev pub or_nothing : {A : Type 0} → Fault → List A → List A
or_nothing works xs = xs
or_nothing lost xs = []
or_nothing unheard xs = []

-- json.RawMessage(blocks), or the literal where the column is empty or null
abbrev pub raw_or : Text → Text → Text
raw_or literal blocks =
    if text_eq blocks [] || text_eq blocks (codes "null") then literal else blocks

module _ ⦃collation : Collation⦄ where
  unfoldable pub categories : Fault → Catalogue → Response (List CategoryItem)
  unfolding list_categories
  categories fault d = read fault (list_categories d) (λ rows. data_of (map category_item rows))

  unfoldable pub series : Fault → Catalogue → Response (List SeriesItem)
  unfolding list_series
  series fault d = read fault (list_series 100 d) (λ rows. data_of (map series_item rows))

module _ ⦃codec : Codec⦄ ⦃u : Unicode⦄ (json : Json) where
  unfoldable pub category_contents : Fault → Text → Catalogue → Response (List Item)
  unfolding list_category_contents item_of
  category_contents fault slug d =
      read fault (list_category_contents slug 50 d) (λ rows. data_of (map (item_of json) rows))

  abbrev pub placed_item : PlacedRow → PlacedItem
  placed_item r = record { item = item_of json r.row; position = r.position }

  unfoldable pub series_detail : Fault → Fault → Text → Catalogue → Response SeriesPage
  unfolding get_series list_series_contents item_of
  series_detail first second param d = elim (codec.parse_uuid param) [
    | none ↦ validation_error
    | some id ↦ one first (get_series d id) (λ s.
        read second (list_series_contents id d)
          (λ rows. data_of (record { series = series_item s; items = map placed_item rows })))
  ]

  unfoldable pub search : ⦃s : TextSearch⦄ → Fault → Text → Catalogue → Response (List Item)
  unfolding trim_space byte_len search_published_contents item_of
  search fault q d =
      let query = trim_space q in
      if ltb (byte_len query) 2 || ltb 100 (byte_len query)
      then validation_error
      else read fault (search_published_contents query 50 d)
          (λ rows. data_of (map (item_of json) rows))

  abbrev pub asset_item : AssetRow → AssetItem
  asset_item r = record {
    id = r.asset.id;
    kind = r.asset.kind;
    quality = r.asset.quality_label;
    playback_url = codes "/api/v1/media/" ++ codec.uuid_string r.asset.id;
  }

  unfoldable pub etag : ℕ → ℕ → Text
  etag id revision =
      codes "W/\"content-"
      ++ codec.uuid_string id
      ++ codes "-"
      ++ codec.format_int (pos revision)
      ++ codes "\""

  unfoldable pub detail_of : List AssetRow → Row → Detail
  unfolding content_featured_words content_grammar_points text_eq
  detail_of assets r =
      let c = r.content in
      let body = raw_or (codes "[]") c.body_blocks in
      let metadata = raw_or (codes "{}") c.metadata in
      record {
        id = c.id;
        content_type = c.content_type;
        title = c.title;
        summary = c.summary;
        level = c.level;
        published_at = nullable_time c.published_at;
        released_at = nullable_time c.released_at;
        duration_seconds = c.duration_seconds;
        body_blocks = body;
        transcript_blocks = raw_or (codes "[]") c.transcript_blocks;
        featured_words = content_featured_words json metadata body;
        grammar_points = content_grammar_points json metadata;
        metadata = metadata;
        assets = map asset_item assets;
        source_name = c.attribution;
        canonical_url = r.canonical_url;
        revision = c.revision;
      }

  -- the parameter of the path, and the header If-None-Match
  unfoldable pub content : Fault → Fault → Text → Text → Catalogue → Response Found
  unfolding get_published_content list_content_assets etag detail_of text_eq
  content first second param if_none_match d = elim (codec.parse_uuid param) [
    | none ↦ validation_error
    | some id ↦ one first (get_published_content d id) (λ r.
        let tag = etag r.content.id r.content.revision in
        if text_eq if_none_match tag
        then data_of (not_modified tag)
        else data_of (modified tag (detail_of (or_nothing second (list_content_assets d id)) r)))
  ]
