-- ===== src/Publish/Effect.antt =====
-- What the transaction of Service.Publish (internal/publishing/service.go) does when no round trip
-- fails, as a query on the tables; the transaction refines it.
use el_backend.Publish.Assets.{
  update_publication, insert_publish_event, link_content_asset, delete_other_audio,
  upsert_dictionary, upsert_asset,
}
use el_backend.Publish.Statements.{
  upsert_content, upsert_source, link_content_series, insert_publication, link_content_category,
  upsert_category, delete_content_series, upsert_series, delete_content_categories,
}
use el_backend.Database.Refine.{
  Refines-for_each, Refines-on_error, Refines-statement, Refines-bind, Refines-pure, Refines,
}
use el_backend.Publish.Slug.{slugify, is_empty}
use el_backend.Publish.Document.{FeaturedWord, is_blank, Document}
use el_backend.Catalogue.Schema.{Catalogue}
use el_backend.Publish.Service.{
  audio_body, publish_body, content_row, source_row, publication_row, asset_row, taken, Result,
  Marshal,
}
use el_backend.Publish.Taxonomy.{
  link_series, link_topic, link_level, put_word, link_taxonomy, upsert_featured_dictionary, title,
  nullable_string, dictionary_row, has_level, link_category,
}
use el_backend.Base.{◌++◌, false, ◌||◌, true, ok, Bool, ℕ}
use el_backend.Text.{codes, Text, Unicode}
use el_backend.Database.{Tx, each_query, map_err, then_query, Query}

abbrev pub quiet_end : Query Catalogue (Unit {0})
quiet_end d = ok (tt, d)

module _ ⦃u : Unicode⦄ where
  abbrev pub category_query : ℕ → Text → Text → Text → Bool → Query Catalogue (Unit {0})
  category_query content slug name kind primary = elim (is_empty (slugify slug)) [
    | true ↦ quiet_end
    | false ↦
        then_query (upsert_category (slugify slug) name kind)
          (λ category. link_content_category content category primary)
  ]

  abbrev pub level_query : ℕ → Document → Query Catalogue (Unit {0})
  level_query content d = elim (has_level d) [
    | true ↦ category_query content d.level (title d.level) (codes "level") true
    | false ↦ quiet_end
  ]

  abbrev pub topic_query : ℕ → Text → Query Catalogue (Unit {0})
  topic_query content topic = category_query content topic (title topic) (codes "topic") false

  abbrev pub series_query : ℕ → ℕ → Document → Query Catalogue (Unit {0})
  series_query now content d = elim (is_blank d.series) [
    | true ↦ quiet_end
    | false ↦
        then_query
          (upsert_series now (codes "series-" ++ slugify d.series) d.series
            (nullable_string d.level))
          (λ series. link_content_series content series)
  ]

  abbrev pub taxonomy_query : ℕ → ℕ → Document → Query Catalogue (Unit {0})
  taxonomy_query now content d =
      then_query (level_query content d)
        λ _. then_query (each_query (topic_query content) d.topics) λ _. series_query now content d

  abbrev pub word_query : ℕ → ℕ → Document → FeaturedWord → Query Catalogue (Unit {0})
  word_query now content d entry = elim (is_blank entry.word || is_blank entry.definition) [
    | true ↦ quiet_end
    | false ↦ upsert_dictionary now (dictionary_row now content d entry)
  ]

  abbrev pub audio_query : ℕ → Text → Document → ℕ → ℕ → Query Catalogue (Unit {0})
  audio_query now key d content revision = then_query (upsert_asset (asset_row now d)) λ asset.
      then_query (delete_other_audio content asset) λ _.
        then_query (link_content_asset content asset) λ _.
          then_query (insert_publish_event now content revision)
            λ _. update_publication key content revision

  -- what follows the row of the content
  abbrev pub linked_query : Text → ℕ → Text → Document → ℕ × ℕ → Query Catalogue Result
  linked_query environment now key d (content, revision) =
      then_query (delete_content_categories content) λ _.
        then_query (delete_content_series content) λ _.
          then_query (taxonomy_query now content d) λ _.
            then_query (each_query (word_query now content d) d.featured_words) λ _.
              then_query (audio_query now key d content revision) λ _ t. ok (
                record {
                  content_id = content;
                  revision = revision;
                  environment = environment;
                  duplicate = false;
                },
                t,
              )

  unfoldable pub publish_query : Marshal → Text → ℕ → Text → Document → Query Catalogue Result
  publish_query json environment now key d =
      then_query
        (λ t. map_err taken (insert_publication (json.refused d) (publication_row json key d) t))
        λ _. then_query (upsert_source (source_row now d)) λ source.
          then_query (upsert_content (content_row json now source d))
            (linked_query environment now key d)

-- a part that some documents have and others do not
Refines-choice :
    (b : Bool) (m n : Tx Catalogue (Unit {0})) (q r : Query Catalogue (Unit {0}))
    → Refines m q
    → Refines n r
    → Refines (elim b [ true ↦ m | false ↦ n ]) (elim b [ true ↦ q | false ↦ r ])
Refines-choice true m n q r h k = h
Refines-choice false m n q r h k = k

module _ ⦃u : Unicode⦄ where
  Refines-category :
      (content : ℕ) (slug name kind : Text) (primary : Bool)
      → Refines
          (link_category content slug name kind primary)
          (category_query content slug name kind primary)
  unfolding link_category
  Refines-category content slug name kind primary =
      Refines-choice (is_empty (slugify slug)) _ _ _ _ (Refines-pure tt)
        (Refines-bind _ _ _ _ (Refines-statement _) (λ category. Refines-statement _))

  Refines-taxonomy :
      (now content : ℕ) (d : Document)
      → Refines (link_taxonomy now content d) (taxonomy_query now content d)
  unfolding link_taxonomy link_level link_topic link_series
  Refines-taxonomy now content d =
      Refines-bind _ _ _ _
        (Refines-choice (has_level d) _ _ _ _
          (Refines-category content d.level (title d.level) (codes "level") true) (Refines-pure tt))
        λ _.
          Refines-bind _ _ _ _
            (Refines-for_each _ _
              (λ topic. Refines-category content topic (title topic) (codes "topic") false)
              d.topics)
            λ _.
              Refines-choice (is_blank d.series) _ _ _ _ (Refines-pure tt)
                (Refines-bind _ _ _ _ (Refines-statement _) (λ series. Refines-statement _))

  Refines-words :
      (now content : ℕ) (d : Document)
      → Refines
          (upsert_featured_dictionary now content d)
          (each_query (word_query now content d) d.featured_words)
  unfolding upsert_featured_dictionary put_word
  Refines-words now content d =
      Refines-for_each _ _
        (λ entry.
          Refines-choice (is_blank entry.word || is_blank entry.definition) _ _ _ _
            (Refines-pure tt) (Refines-statement _))
        d.featured_words

  Refines-audio :
      (now : ℕ) (key : Text) (d : Document) (content revision : ℕ)
      → Refines (audio_body now key d content revision) (audio_query now key d content revision)
  unfolding audio_body
  Refines-audio now key d content revision = Refines-bind _ _ _ _ (Refines-statement _) λ asset.
      Refines-bind _ _ _ _ (Refines-statement _) λ _.
        Refines-bind _ _ _ _ (Refines-statement _)
          λ _. Refines-bind _ _ _ _ (Refines-statement _) λ _. Refines-statement _

  pub Refines-publish :
      (json : Marshal) (environment : Text) (now : ℕ) (key : Text) (d : Document)
      → Refines (publish_body json environment now key d) (publish_query json environment now key d)
  unfolding publish_body publish_query
  Refines-publish json environment now key d = Refines-bind _ _ _ _ (Refines-on_error _ _) λ _.
      Refines-bind _ _ _ _ (Refines-statement _) λ source.
        Refines-bind _ _ _ _ (Refines-statement _) λ (content, revision).
          Refines-bind _ _ _ _ (Refines-statement _) λ _.
            Refines-bind _ _ _ _ (Refines-statement _) λ _.
              Refines-bind _ _ _ _ (Refines-taxonomy now content d) λ _.
                Refines-bind _ _ _ _ (Refines-words now content d) λ _.
                  Refines-bind _ _ _ _ (Refines-audio now key d content revision)
                    λ _. Refines-pure _
