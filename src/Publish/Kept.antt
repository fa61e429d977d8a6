-- ===== src/Publish/Kept.antt =====
-- The linking of a content to its taxonomy and words (internal/publishing/service.go) touches neither
-- publications and contents nor assets and events.
use el_backend.Publish.Taxonomy.{has_level}
use el_backend.Publish.Slug.{slugify, is_empty}
use el_backend.Publish.Service.{Result}
use el_backend.Database.{each_query}
use el_backend.Publish.Effect.{
  audio_query, linked_query, word_query, taxonomy_query, category_query,
}
use el_backend.Database.Keeps.{
  ok-injective, after-eq-ok, Keeps-nothing, Keeps-each, Keeps-choice, Keeps-then, Keeps,
}
use el_backend.Publish.Document.{is_blank, Document}
use el_backend.Text.{Text, Unicode}
use el_backend.Publish.Assets.{upsert_dictionary}
use el_backend.Catalogue.Schema.{
  ContentAsset, Asset, PublishEvent, SourceItem, DictionaryEntry, Content, CmsPublication,
  Catalogue,
}
use el_backend.Publish.Statements.{
  upsert_series, link_content_series, upsert_category, link_content_category, delete_content_series,
  delete_content_categories,
}
use el_backend.Base.{sym, ap, ◌∙◌, false, ◌||◌, ok, ◌≡◌, Option, Bool, ℕ, List, arith}

pub record Core : Type 0 where
  pub publications : List CmsPublication
  pub contents : List Content
  pub source_items : List SourceItem
  pub publish_events : List PublishEvent
  pub assets : List Asset
  pub content_assets : List ContentAsset

abbrev pub core : Catalogue → Core
core d = record {
  publications = d.publications;
  contents = d.contents;
  source_items = d.source_items;
  publish_events = d.publish_events;
  assets = d.assets;
  content_assets = d.content_assets;
}

pub Keeps-delete_content_categories : (c : ℕ) → Keeps core (delete_content_categories c)
unfolding delete_content_categories
Keeps-delete_content_categories c d a d' h = ground arith

pub Keeps-delete_content_series : (c : ℕ) → Keeps core (delete_content_series c)
unfolding delete_content_series
Keeps-delete_content_series c d a d' h = ground arith

Keeps-upsert_category : (s n k : Text) → Keeps core (upsert_category s n k)
unfolding upsert_category
Keeps-upsert_category s n k d a d' h = ground arith

Keeps-link_content_category : (c k : ℕ) (p : Bool) → Keeps core (link_content_category c k p)
unfolding link_content_category
Keeps-link_content_category c k p d a d' h = ground arith

Keeps-upsert_series :
    (now : ℕ) (s t : Text) (l : Option Text) → Keeps core (upsert_series now s t l)
unfolding upsert_series
Keeps-upsert_series now s t l d a d' h = ground arith

Keeps-link_content_series : (c s : ℕ) → Keeps core (link_content_series c s)
unfolding link_content_series
Keeps-link_content_series c s d a d' h = ground arith

Keeps-upsert_dictionary : (now : ℕ) (e : DictionaryEntry) → Keeps core (upsert_dictionary now e)
unfolding upsert_dictionary
Keeps-upsert_dictionary now e d a d' h = ground arith

module _ ⦃u : Unicode⦄ where
  Keeps-category :
      (content : ℕ) (slug name kind : Text) (primary : Bool)
      → Keeps core (category_query content slug name kind primary)
  Keeps-category content slug name kind primary =
      Keeps-choice core (is_empty (slugify slug)) _ _ (Keeps-nothing core tt) (
        Keeps-then core _ _ (Keeps-upsert_category _ _ _)
          (λ category. Keeps-link_content_category _ _ _))

  pub Keeps-taxonomy : (now content : ℕ) (d : Document) → Keeps core (taxonomy_query now content d)
  Keeps-taxonomy now content d =
      Keeps-then core _ _
        (Keeps-choice core (has_level d) _ _ (Keeps-category _ _ _ _ _) (Keeps-nothing core tt))
        λ _.
          Keeps-then core _ _ (Keeps-each core _ (λ topic. Keeps-category _ _ _ _ _) d.topics) λ _.
            Keeps-choice core (is_blank d.series) _ _ (Keeps-nothing core tt) (
              Keeps-then core _ _ (Keeps-upsert_series _ _ _ _)
                (λ series. Keeps-link_content_series _ _))

  pub Keeps-words :
      (now content : ℕ) (d : Document)
      → Keeps core (each_query (word_query now content d) d.featured_words)
  Keeps-words now content d =
      Keeps-each core _
        (λ entry.
          Keeps-choice core (is_blank entry.word || is_blank entry.definition) _ _
            (Keeps-nothing core tt) (Keeps-upsert_dictionary _ _))
        d.featured_words

  -- everything between the row of the content and the audio
  pub linked_query-eq-ok :
      (environment : Text) (now : ℕ) (key : Text) (d : Document) (content revision : ℕ)
      (t : Catalogue) (r : Result) (t' : Catalogue)
      → linked_query environment now key d (content, revision) t ≡ ok (r, t')
      → (m : Catalogue) × (core m ≡ core t)
        × (audio_query now key d content revision m ≡ ok (tt, t'))
        × (r ≡ record {
          content_id = content;
          revision = revision;
          environment = environment;
          duplicate = false;
        })
  linked_query-eq-ok environment now key d content revision t r t' h =
      let (_, t1, e1, h1) = after-eq-ok (delete_content_categories content t) _ h in
      let (_, t2, e2, h2) = after-eq-ok (delete_content_series content t1) _ h1 in
      let (_, t3, e3, h3) = after-eq-ok (taxonomy_query now content d t2) _ h2 in
      let (_, t4, e4, h4) =
        after-eq-ok (each_query (word_query now content d) d.featured_words t3) _ h3 in
      let (_, t5, e5, h5) = after-eq-ok (audio_query now key d content revision t4) _ h4 in
      (
        t4,
        Keeps-words now content d t3 _ t4 e4
            ∙ Keeps-taxonomy now content d t2 _ t3 e3
            ∙ Keeps-delete_content_series content t1 _ t2 e2
            ∙ Keeps-delete_content_categories content t _ t1 e1,
        e5 ∙ ap (λ x. ok (tt, x)) (ok-injective h5).1,
        sym (ok-injective h5).0,
      )
