-- ===== src/Publish/Goes.antt =====
-- When a publication goes through (Service.Publish, internal/publishing/service.go).
use el_backend.Database.Atomic.{transact_calm}
use el_backend.Publish.Atomic.{effect}
use el_backend.Publish.Request.{
  lookup, after_transaction, after_audio, after_lookup, publish, Incoming, Setting,
}
use el_backend.Database.Table.{find-none, any, merged}
use el_backend.Publish.Taxonomy.{has_level}
use el_backend.Publish.Slug.{slugify, is_empty}
use el_backend.Database.{on_pool, map_err, no_rows, violation, each_query}
use el_backend.Publish.Effect.{
  Refines-publish, publish_query, word_query, linked_query, taxonomy_query, category_query,
}
use el_backend.Publish.Service.{
  object_key, taken, Result, content_row, publication_row, source_row, Marshal, asset_row,
  whole_seconds,
}
use el_backend.Database.Keeps.{after-ok, guard-passes, Total-each, Total-then, Total-choice, Total}
use el_backend.Catalogue.Schema.{Catalogue, Content, DictionaryEntry}
use el_backend.Publish.Document.{validate, is_blank, Document}
use el_backend.Text.{valid_string, text_eq, Text, Unicode}
use el_backend.Publish.Statements.{
  select_publication, source_key, publication_key, of_source, bad_duration, content_conflict,
  merge_source, upsert_source, insert_publication, upsert_content, is_negative, in_int4,
  delete_content_series, delete_content_categories, upsert_series, upsert_category,
  link_content_series, link_content_category,
}
use el_backend.Publish.Assets.{
  update_publication, insert_publish_event, upsert_asset, link_content_asset, delete_other_audio,
  upsert_dictionary,
}
use el_backend.Base.{
  ap, ◌∙◌, [], ◌∷◌, ◌++◌, none, ok, find?, some, false, ◌||◌, true, ◌≡◌, refl, Option, Bool, ℕ,
  arith,
}

link-Total : (c k : ℕ) (p : Bool) → Total (link_content_category c k p)
unfolding link_content_category
link-Total c k p d = (tt, _, refl)

category-Total : (s n k : Text) → Total (upsert_category s n k)
unfolding upsert_category
category-Total s n k d = (_, _, refl)

series-Total : (now : ℕ) (s t : Text) (l : Option Text) → Total (upsert_series now s t l)
unfolding upsert_series
series-Total now s t l d = (_, _, refl)

link_series-Total : (c s : ℕ) → Total (link_content_series c s)
unfolding link_content_series
link_series-Total c s d = (tt, _, refl)

dictionary-Total : (now : ℕ) (e : DictionaryEntry) → Total (upsert_dictionary now e)
unfolding upsert_dictionary
dictionary-Total now e d = (tt, _, refl)

deletes-Total : (c : ℕ) → Total (delete_content_categories c) × Total (delete_content_series c)
unfolding delete_content_categories delete_content_series
deletes-Total c = (λ d. (tt, _, refl), λ d. (tt, _, refl))

ends-Total :
    (now : ℕ) (key : Text) (c a r : ℕ)
    → Total (delete_other_audio c a)
      × Total (link_content_asset c a)
      × Total (insert_publish_event now c r)
      × Total (update_publication key c r)
unfolding delete_other_audio link_content_asset insert_publish_event update_publication
ends-Total now key c a r =
    (λ d. (tt, _, refl), λ d. (tt, _, refl), λ d. (tt, _, refl), λ d. (tt, _, refl))

module _ ⦃u : Unicode⦄ where
  category_query-Total :
      (content : ℕ) (slug name kind : Text) (primary : Bool)
      → Total (category_query content slug name kind primary)
  category_query-Total content slug name kind primary =
      Total-choice (is_empty (slugify slug)) _ _ (λ d. (tt, d, refl))
        (Total-then _ _ (category-Total _ _ _) (λ category. link-Total _ _ _))

  taxonomy-Total : (now content : ℕ) (d : Document) → Total (taxonomy_query now content d)
  taxonomy-Total now content d =
      Total-then _ _
        (Total-choice (has_level d) _ _ (category_query-Total _ _ _ _ _) (λ t. (tt, t, refl)))
        λ _. Total-then _ _ (Total-each _ (λ topic. category_query-Total _ _ _ _ _) d.topics) λ _.
          Total-choice (is_blank d.series) _ _ (λ t. (tt, t, refl))
            (Total-then _ _ (series-Total _ _ _ _) (λ series. link_series-Total _ _))

  words-Total :
      (now content : ℕ) (d : Document)
      → Total (each_query (word_query now content d) d.featured_words)
  words-Total now content d =
      Total-each _
        (λ entry.
          Total-choice (is_blank entry.word || is_blank entry.definition) _ _ (λ t. (tt, t, refl))
            (dictionary-Total _ _))
        d.featured_words

  -- the length of the audio fits its column
  abbrev pub FitsLength : Document → Type 0
  FitsLength d =
      (in_int4 (whole_seconds d.timeline.duration_ms) ≡ true)
      × (is_negative (whole_seconds d.timeline.duration_ms) ≡ false)

  asset-Total : (now : ℕ) (d : Document) → FitsLength d → Total (upsert_asset (asset_row now d))
  unfolding upsert_asset
  asset-Total now d (fits, positive) t =
      (_, _, guard-passes _ violation _ (rw (fits, positive) refl))

  linked-Total :
      (environment : Text) (now : ℕ) (key : Text) (d : Document) (content revision : ℕ)
      → FitsLength d
      → Total (linked_query environment now key d (content, revision))
  linked-Total environment now key d content revision f =
      Total-then _ _ (deletes-Total content).0 λ _. Total-then _ _ (deletes-Total content).1 λ _.
        Total-then _ _ (taxonomy-Total now content d) λ _.
          Total-then _ _ (words-Total now content d) λ _.
            Total-then _ _
              (Total-then _ _ (asset-Total now d f) λ asset.
                Total-then _ _ (ends-Total now key content asset revision).0 λ _.
                  Total-then _ _ (ends-Total now key content asset revision).1 λ _.
                    Total-then _ _ (ends-Total now key content asset revision).2
                      λ _. (ends-Total now key content asset revision).3)
              λ _ t. (_, t, refl)

  -- the id of the document's source item: that of the row that is there, or the next one
  unfoldable pub source_of : ℕ → Document → Catalogue → ℕ
  unfolding merge_source text_eq
  source_of now d t =
      (merged (record (source_row now d) { id = t.next_id }) (merge_source (source_row now d))
        (find? (source_key d.source d.source_url) t.source_items)).id

  -- what the tables must allow
  pub record Room (json : Marshal) (now : ℕ) (key : Text) (d : Document) (t : Catalogue)
      : Type 0 where
    pub accepted : json.refused d ≡ false
    pub text : valid_string key ≡ true
    pub free : any (publication_key key) t.publications ≡ false
    pub length : FitsLength d
    -- the slug is not that of another source's content, and the next revision fits its column
    pub no_conflict :
        content_conflict
          (content_row json now (source_of now d t) d)
          (find? (of_source (source_of now d t)) t.contents)
          t
        ≡ false

  insertion-goes :
      (json : Marshal) (now : ℕ) (key : Text) (d : Document) (t : Catalogue)
      → Room json now key d t
      → insert_publication (json.refused d) (publication_row json key d) t
        ≡ ok (tt, record t { publications = t.publications ++ publication_row json key d ∷ [] })
  unfolding insert_publication
  insertion-goes json now key d t r =
      guard-passes _ violation _ (rw (r.accepted, r.text) refl) ∙ guard-passes _ no_rows _ r.free

  source-goes :
      (now : ℕ) (d : Document) (t : Catalogue)
      → (t' : Catalogue) × (upsert_source (source_row now d) t ≡ ok (source_of now d t, t'))
        × (t'.contents ≡ t.contents)
  unfolding upsert_source source_of
  source-goes now d t = (_, refl, refl)

  content-goes :
      (new : Content) (t : Catalogue)
      → bad_duration new.duration_seconds ≡ false
      → content_conflict new (find? (of_source new.source_item_id) t.contents) t ≡ false
      → (p : ℕ × ℕ) × (t' : Catalogue) × (upsert_content new t ≡ ok (p, t'))
  unfolding upsert_content
  content-goes new t f c = (_, _, guard-passes _ violation _ (rw (f, c) refl))

  conflict-contents :
      (new : Content) (o : Option Content) (t t' : Catalogue)
      → t'.contents ≡ t.contents
      → content_conflict new o t' ≡ content_conflict new o t
  conflict-contents new none t t' e = rw e refl
  conflict-contents new (some c) t t' e = refl

  query-goes :
      (json : Marshal) (environment : Text) (now : ℕ) (key : Text) (d : Document) (t : Catalogue)
      → Room json now key d t
      → (r : Result) × (after : Catalogue) × (publish_query json environment now key d t
          ≡ ok (r, after))
  unfolding publish_query source_of
  query-goes json environment now key d t room =
      let t0 = record t { publications = t.publications ++ publication_row json key d ∷ [] } in
      let (t1, e1, same) = source-goes now d t0 in
      let source = source_of now d t in
      let new = content_row json now source d in
      let ((content, revision), t2, e2) = content-goes new t1 (rw (room.length.0) refl) (
        rw same (
          conflict-contents new (find? (of_source source) t.contents) t t1 same
          ∙ room.no_conflict)) in
      let (r, after, e3) = linked-Total environment now key d content revision room.length t2 in
      (
        r,
        after,
        after-ok
            (λ x.
              map_err taken (insert_publication (json.refused d) (publication_row json key d) x))
            _ t tt t0 r after (ap (map_err taken) (insertion-goes json now key d t room))
            (after-ok (upsert_source (source_row now d)) _ t0 source t1 r after e1 (
              after-ok (upsert_content new) (linked_query environment now key d) t1
                (content, revision) t2 r after e2 e3)),
      )

  module _ {O : Type 0} (s : Setting O) (q : Incoming) where
    audio-goes :
        (t after : Catalogue) (r : Result) (p : Bool × O)
        → p.0 ≡ true
        → text_eq q.digest q.document.audio.sha256 ≡ true
        → s.meanwhile t ≡ t
        → effect s q t ≡ ok (r, after)
        → after_audio s q (record { tables = t; faults = [] }) p
          ≡ (ok r, (record { tables = after; faults = [] }, p.1))
    unfolding after_audio after_transaction
    audio-goes t after r (false, o) h same alone e = absurd (ground arith)
    audio-goes t after r (true, o) h same alone e =
        rw
          (
            after_audio,
            same,
            alone,
            transact_calm _ _ (Refines-publish s.json s.environment s.now q.key q.document) t r
                after e,
          )
          refl

    lookup-goes :
        (t : Catalogue)
        → valid_string q.key ≡ true
        → any (publication_key q.key) t.publications ≡ false
        → lookup s q.key (record { tables = t; faults = [] })
          ≡ (ok none, record { tables = t; faults = [] })
    unfolding on_pool select_publication
    lookup-goes t v f =
        rw (on_pool, select_publication, v, find-none (publication_key q.key) t.publications f) refl

    -- A valid document whose audio is stored and has the stated digest is published, where no round
    -- trip fails, nobody else writes, PostgreSQL takes the document as jsonb (it refuses one with
    -- U+0000), the key is valid UTF-8 and new, the length of the audio fits, the slug is not that of
    -- another source's content, and the next revision fits: the answer is the result of the
    -- publication, and the tables are as its effect makes them.
    pub publish-goes :
        (t : Catalogue) (o : O)
        → validate q.key q.document ≡ ok tt
        → Room s.json s.now q.key q.document t
        → (s.store.put (object_key q.document) o).0 ≡ true
        → text_eq q.digest q.document.audio.sha256 ≡ true
        → s.meanwhile t ≡ t
        → (r : Result) × (after : Catalogue) × (effect s q t ≡ ok (r, after))
          × (publish s q (record { tables = t; faults = [] }, o) ≡ (
            ok r,
            (record { tables = after; faults = [] }, (s.store.put (object_key q.document) o).1),
          ))
    unfolding publish after_lookup
    publish-goes t o valid room stored same alone =
        let (r, after, e) = query-goes s.json s.environment s.now q.key q.document t room in
        (
          r,
          after,
          e,
          rw (publish, valid, lookup-goes t room.text room.free)
              (audio-goes t after r (s.store.put (object_key q.document) o) stored same alone e),
        )
