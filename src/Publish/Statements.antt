-- ===== src/Publish/Statements.antt =====
-- The statements of internal/publishing/service.go on the catalogue, each with the constraints of
-- db/migrations that it can violate. `now` is the time of the transaction.
use el_backend.Database.Table.{merged, upsert_row, delete_rows, any}
use el_backend.Database.{null_column, Error, with_tables, no_rows, violation, Query}
use el_backend.Text.{codes, valid_string, Text, text_eq}
use el_backend.Base.{
  err, Outcome, [], ◌∷◌, ◌++◌, ◌||◌, not, ltb, ok, false, guard, find?, ◌+◌, ◌&&◌, ◌==◌, none, ◌^◌,
  some, Bool, true, Option, ℕ,
}
use el_backend.Base.Int.{negsuc, pos, ℤ}
use el_backend.Catalogue.Schema.{
  published, ContentCategory, ContentSeries, Series, Category, Catalogue, CmsPublication, Content,
  SourceItem,
}

abbrev pub int4_bound : ℕ
int4_bound = 2 ^ 31

-- whether the driver can send the number as an int4
abbrev pub in_int4 : ℤ → Bool
in_int4 (pos n) = ltb n int4_bound
in_int4 (negsuc n) = ltb n int4_bound

abbrev pub is_negative : ℤ → Bool
is_negative (pos n) = false
is_negative (negsuc n) = true

-- SELECT content_id, content_revision FROM cms_publications …
abbrev pub publication_key : Text → CmsPublication → Bool
publication_key key p = text_eq p.idempotency_key key

-- a revision that is NULL cannot be scanned into an int32
abbrev pub completed : CmsPublication → Outcome Error (Option (ℕ × ℕ))
completed p = elim p.content_id [
  | none ↦ ok none
  | some c ↦ elim p.content_revision [ none ↦ err null_column | some r ↦ ok (some (c, r)) ]
]

abbrev pub completed_if_any : Option CmsPublication → Outcome Error (Option (ℕ × ℕ))
completed_if_any none = ok none
completed_if_any (some p) = completed p

unfoldable pub select_publication : Text → Query Catalogue (Option (ℕ × ℕ))
unfolding text_eq valid_string
select_publication key d =
    guard (not (valid_string key)) violation
      (with_tables (completed_if_any (find? (publication_key key) d.publications)) d)

-- INSERT INTO cms_publications … ON CONFLICT DO NOTHING RETURNING idempotency_key
unfoldable pub insert_publication : Bool → CmsPublication → Query Catalogue (Unit {0})
unfolding text_eq valid_string
insert_publication refused p d = guard (refused || not (valid_string p.idempotency_key)) violation (
    guard (any (publication_key p.idempotency_key) d.publications) no_rows
      (ok (tt, record d { publications = d.publications ++ p ∷ [] })))

-- INSERT INTO source_items … ON CONFLICT (source, canonical_url) DO UPDATE … RETURNING id
abbrev pub source_key : Text → Text → SourceItem → Bool
source_key source url s = text_eq s.source source && text_eq s.canonical_url url

unfoldable pub merge_source : SourceItem → SourceItem → SourceItem
merge_source new s = record s {
  external_id = new.external_id;
  page_type = new.page_type;
  fetched = true;
  last_seen_at = new.last_seen_at;
}

unfoldable pub upsert_source : SourceItem → Query Catalogue ℕ
unfolding merge_source text_eq
upsert_source new d =
    let row = record new { id = d.next_id } in
    let hits = source_key new.source new.canonical_url in
    ok (
      (merged row (merge_source new) (find? hits d.source_items)).id,
      record d {
        source_items = upsert_row hits row (merge_source new) d.source_items;
        next_id = d.next_id + 1;
      },
    )

-- INSERT INTO contents … ON CONFLICT (source_item_id) DO UPDATE … RETURNING id, revision
unfoldable pub merge_content : Content → Content → Content
merge_content new c = record c {
  title = new.title;
  summary = new.summary;
  level = new.level;
  published_at = new.published_at;
  duration_seconds = new.duration_seconds;
  body_blocks = new.body_blocks;
  transcript_blocks = new.transcript_blocks;
  metadata = new.metadata;
  attribution = new.attribution;
  status = published;
  revision = c.revision + 1;
  source_updated_at = new.source_updated_at;
  released_at = new.released_at;
  updated_at = new.updated_at;
}

abbrev pub of_source : ℕ → Content → Bool
of_source source c = c.source_item_id == source

abbrev pub bad_duration : Option ℤ → Bool
bad_duration none = false
bad_duration (some z) = not (in_int4 z)

-- a slug that another content has, or a revision that does not fit
abbrev pub content_conflict : Content → Option Content → Catalogue → Bool
content_conflict new none d = any (λ c. text_eq c.slug new.slug) d.contents
content_conflict new (some c) d = not (ltb (c.revision + 1) int4_bound)

unfoldable pub upsert_content : Content → Query Catalogue (ℕ × ℕ)
unfolding merge_content text_eq
upsert_content new d =
    let row = record new { id = d.next_id } in
    let old = find? (of_source new.source_item_id) d.contents in
    let stored = merged row (merge_content new) old in
    guard (bad_duration new.duration_seconds || content_conflict new old d) violation (
      ok (
        (stored.id, stored.revision),
        record d {
          contents = upsert_row (of_source new.source_item_id) row (merge_content new) d.contents;
          next_id = d.next_id + 1;
        },
      ))

-- DELETE FROM content_categories, content_series WHERE content_id = $1
unfoldable pub delete_content_categories : ℕ → Query Catalogue (Unit {0})
delete_content_categories content d = ok (
  tt,
  record d {
    content_categories = delete_rows (λ cc. cc.content_id == content) d.content_categories;
  },
)

unfoldable pub delete_content_series : ℕ → Query Catalogue (Unit {0})
delete_content_series content d = ok (
  tt,
  record d { content_series = delete_rows (λ cs. cs.content_id == content) d.content_series },
)

-- INSERT INTO categories … ON CONFLICT (slug) DO UPDATE SET name RETURNING id
unfoldable pub upsert_category : Text → Text → Text → Query Catalogue ℕ
unfolding text_eq
upsert_category slug name kind d =
    let row : Category = record {
      id = d.next_id;
      slug = slug;
      name = name;
      kind = kind;
      parent_id = none;
      sort_order = pos 0;
      status = codes "active";
    } in
    let hits = λ (c : Category). text_eq c.slug slug in
    let merge = λ (c : Category). record c { name = name } in
    ok (
      (merged row merge (find? hits d.categories)).id,
      record d { categories = upsert_row hits row merge d.categories; next_id = d.next_id + 1 },
    )

unfoldable pub link_content_category : ℕ → ℕ → Bool → Query Catalogue (Unit {0})
link_content_category content category primary d =
    let row : ContentCategory = record {
      content_id = content;
      category_id = category;
      is_primary = primary;
      position = pos 0;
    } in
    let hits = λ (cc : ContentCategory). cc.content_id == content && cc.category_id == category in
    ok (
      tt,
      record d {
        content_categories =
            upsert_row hits row (λ cc. record cc { is_primary = primary }) d.content_categories;
      },
    )

-- INSERT INTO series … ON CONFLICT (slug) DO UPDATE SET title, level RETURNING id
unfoldable pub upsert_series : ℕ → Text → Text → Option Text → Query Catalogue ℕ
unfolding text_eq
upsert_series now slug title level d =
    let row : Series = record {
      id = d.next_id;
      slug = slug;
      title = title;
      description = none;
      level = level;
      source_item_id = none;
      status = codes "active";
      created_at = now;
      updated_at = now;
    } in
    let hits = λ (s : Series). text_eq s.slug slug in
    let merge = λ (s : Series). record s { title = title; level = level; updated_at = now } in
    ok (
      (merged row merge (find? hits d.series)).id,
      record d { series = upsert_row hits row merge d.series; next_id = d.next_id + 1 },
    )

unfoldable pub link_content_series : ℕ → ℕ → Query Catalogue (Unit {0})
link_content_series content series d =
    let row : ContentSeries = record {
      content_id = content;
      series_id = series;
      position = pos 0;
    } in
    ok (
      tt,
      record d {
        content_series =
            upsert_row (λ cs. cs.content_id == content) row (λ cs. record cs { series_id = series })
              d.content_series;
      },
    )
