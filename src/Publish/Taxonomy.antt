-- ===== src/Publish/Taxonomy.antt =====
-- linkTaxonomy, linkCategory, upsertFeaturedDictionary and the helpers title, nullableString and
-- sourceAttribution (internal/publishing/service.go).
use el_backend.Base.Int.{pos}
use el_backend.Publish.Assets.{upsert_dictionary}
use el_backend.Publish.Statements.{
  link_content_category, link_content_series, upsert_series, upsert_category,
}
use el_backend.Catalogue.Schema.{DictionaryEntry, Catalogue}
use el_backend.Publish.Slug.{is_empty, slugify}
use el_backend.Base.{
  ◌&&◌, some, false, [], true, ◌||◌, map, ◌==◌, not, ltb, none, if◌then◌else◌, Option, ◌++◌, ◌∷◌,
  Bool, ℕ,
}
use el_backend.Database.{◌>>◌, statement, Tx, ◌>>=◌, for_each, pure}
use el_backend.Text.Fields.{join_with, fields}
use el_backend.Publish.Document.{FeaturedWord, Document, is_blank}
use el_backend.Text.{to_lower, codes, trim_space, text_eq, Text, Unicode}

module _ ⦃u : Unicode⦄ where
  -- title: strings.ReplaceAll for both marks, and the first rune of each word in upper case
  abbrev pub mark_to_space : ℕ → ℕ
  mark_to_space c = if c == 0x2d || c == 0x5f then 0x20 else c

  abbrev pub valid_rune : ℕ → ℕ
  valid_rune c = if ltb c 0x110000 then c else 0xfffd

  abbrev pub capital : Text → Text
  capital [] = []
  capital (c ∷ s) = u.upper_of (valid_rune c) ∷ map valid_rune s

  unfoldable pub title : Text → Text
  unfolding fields join_with
  title value = join_with (codes " ") (map capital (fields (map mark_to_space value)))

  unfoldable pub link_category : ℕ → Text → Text → Text → Bool → Tx Catalogue (Unit {0})
  unfolding ◌>>=◌ pure statement upsert_category link_content_category slugify
  link_category content slug name kind primary = elim (is_empty (slugify slug)) [
    | true ↦ pure tt
    | false ↦ do
      category ← statement (upsert_category (slugify slug) name kind)
      statement (link_content_category content category primary)
  ]

  abbrev pub has_level : Document → Bool
  has_level d = not (is_empty d.level) && not (text_eq d.level (codes "unclassified"))

  unfoldable pub link_level : ℕ → Document → Tx Catalogue (Unit {0})
  unfolding link_category title text_eq pure
  link_level content d = elim (has_level d) [
    | true ↦ link_category content d.level (title d.level) (codes "level") true
    | false ↦ pure tt
  ]

  unfoldable pub link_topic : ℕ → Text → Tx Catalogue (Unit {0})
  unfolding link_category title
  link_topic content topic = link_category content topic (title topic) (codes "topic") false

  abbrev pub nullable_string : Text → Option Text
  nullable_string value = if is_blank value then none else some value

  unfoldable pub link_series : ℕ → ℕ → Document → Tx Catalogue (Unit {0})
  unfolding ◌>>=◌ pure statement upsert_series link_content_series slugify is_blank
  link_series now content d = elim (is_blank d.series) [
    | true ↦ pure tt
    | false ↦ do
      series ← statement (
          upsert_series now (codes "series-" ++ slugify d.series) d.series
            (nullable_string d.level))
      statement (link_content_series content series)
  ]

  unfoldable pub link_taxonomy : ℕ → ℕ → Document → Tx Catalogue (Unit {0})
  unfolding ◌>>=◌ link_level link_topic link_series for_each
  link_taxonomy now content d = do
    link_level content d
    for_each (link_topic content) d.topics
    link_series now content d

  -- the row of a featured word
  abbrev pub part_or_other : Text → Text
  part_or_other part = if is_empty part then codes "other" else part

  abbrev pub dictionary_row : ℕ → ℕ → Document → FeaturedWord → DictionaryEntry
  dictionary_row now content d entry =
      let word = trim_space entry.word in
      record {
        id = 0;
        normalized_word = to_lower word;
        word = word;
        part_of_speech = part_or_other (to_lower (trim_space entry.part_of_speech));
        definition = trim_space entry.definition;
        examples = [];
        source = codes "published-content";
        source_reference = d.source_content_id;
        sense_rank = pos 0;
        content_id = some content;
        created_at = now;
        updated_at = now;
      }

  unfoldable pub put_word : ℕ → ℕ → Document → FeaturedWord → Tx Catalogue (Unit {0})
  unfolding pure statement upsert_dictionary is_blank to_lower trim_space
  put_word now content d entry = elim (is_blank entry.word || is_blank entry.definition) [
    | true ↦ pure tt
    | false ↦ statement (upsert_dictionary now (dictionary_row now content d entry))
  ]

  unfoldable pub upsert_featured_dictionary : ℕ → ℕ → Document → Tx Catalogue (Unit {0})
  unfolding put_word for_each
  upsert_featured_dictionary now content d = for_each (put_word now content d) d.featured_words

  unfoldable pub source_attribution : Document → Text
  unfolding is_blank trim_space text_eq
  source_attribution d =
      if not (is_blank d.attribution)
      then trim_space d.attribution
      else if text_eq d.source (codes "voa-learning-english")
      then codes "VOA Learning English"
      else d.source

  unfoldable pub content_slug : Document → Text
  unfolding slugify
  content_slug d = slugify (d.source ++ codes "-" ++ d.source_content_id)
