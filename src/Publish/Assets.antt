-- ===== src/Publish/Assets.antt =====
-- The statements of internal/publishing/service.go on the dictionary, the assets and the event log.
use el_backend.Database.Table.{merged, any, upsert_row, update_rows, delete_rows}
use el_backend.Publish.Statements.{publication_key, is_negative, bad_duration}
use el_backend.Database.{violation, Query}
use el_backend.Base.Int.{pos, ℤ}
use el_backend.Text.{codes, text_eq, Text}
use el_backend.Catalogue.Schema.{
  PublishEvent, ContentAsset, Catalogue, DictionaryEntry, managed_cache, Asset,
}
use el_backend.Base.{
  find?, not, [], ◌+◌, ◌||◌, none, ◌==◌, ◌∷◌, ◌++◌, ok, some, guard, ◌&&◌, false, Bool, ℕ, Option,
}

-- INSERT INTO dictionary_entries … ON CONFLICT (normalized_word, …) DO UPDATE
unfoldable pub upsert_dictionary : ℕ → DictionaryEntry → Query Catalogue (Unit {0})
unfolding text_eq
upsert_dictionary now new d =
    let row = record new { id = d.next_id } in
    let hits = λ (e : DictionaryEntry).
      text_eq e.normalized_word new.normalized_word
      && text_eq e.part_of_speech new.part_of_speech
      && text_eq e.definition new.definition
      && text_eq e.source new.source in
    let merge = λ (e : DictionaryEntry). record e {
      word = new.word;
      source_reference = new.source_reference;
      content_id = new.content_id;
      sense_rank = pos 0;
      updated_at = now;
    } in
    ok (
      tt,
      record d { dictionary = upsert_row hits row merge d.dictionary; next_id = d.next_id + 1 },
    )

-- INSERT INTO assets … ON CONFLICT (source_url) DO UPDATE … RETURNING id
unfoldable pub merge_asset : Asset → Asset → Asset
merge_asset new a = record a {
  mime_type = new.mime_type;
  byte_size = new.byte_size;
  duration_seconds = new.duration_seconds;
  checksum = new.checksum;
  delivery_policy = managed_cache;
  attribution = new.attribution;
  object_key = new.object_key;
  availability = codes "available";
  updated_at = new.updated_at;
}

abbrev pub negative : Option ℤ → Bool
negative none = false
negative (some z) = is_negative z

abbrev pub of_url : Text → Asset → Bool
of_url url a = text_eq a.source_url url

unfoldable pub upsert_asset : Asset → Query Catalogue ℕ
unfolding merge_asset text_eq
upsert_asset new d =
    let row = record new { id = d.next_id } in
    guard (bad_duration new.duration_seconds || negative new.duration_seconds) violation (
      ok (
        (merged row (merge_asset new) (find? (of_url new.source_url) d.assets)).id,
        record d {
          assets = upsert_row (of_url new.source_url) row (merge_asset new) d.assets;
          next_id = d.next_id + 1;
        },
      ))

-- DELETE FROM content_assets USING assets WHERE … assets.kind = 'audio' AND assets.id <> $2
unfoldable pub delete_other_audio : ℕ → ℕ → Query Catalogue (Unit {0})
unfolding text_eq
delete_other_audio content asset d = ok (
  tt,
  record d {
    content_assets =
        delete_rows
          (λ ca.
            ca.content_id == content
            && any
                (λ a. a.id == ca.asset_id && text_eq a.kind (codes "audio") && not (a.id == asset))
                d.assets)
          d.content_assets;
  },
)

-- INSERT INTO content_assets … ON CONFLICT (content_id, asset_id, role) DO UPDATE SET position = 0
unfoldable pub link_content_asset : ℕ → ℕ → Query Catalogue (Unit {0})
unfolding text_eq
link_content_asset content asset d =
    let row : ContentAsset = record {
      content_id = content;
      asset_id = asset;
      role = codes "audio";
      position = pos 0;
    } in
    let hits = λ (ca : ContentAsset).
      ca.content_id == content && ca.asset_id == asset && text_eq ca.role (codes "audio") in
    ok (
      tt,
      record d {
        content_assets =
            upsert_row hits row (λ ca. record ca { position = pos 0 }) d.content_assets;
      },
    )

-- INSERT INTO publish_events: the sequence is the next number
unfoldable pub insert_publish_event : ℕ → ℕ → ℕ → Query Catalogue (Unit {0})
insert_publish_event now content revision d =
    let event : PublishEvent = record {
      sequence = d.next_id;
      entity_type = codes "content";
      entity_id = content;
      operation = codes "upsert";
      revision = some revision;
      published_at = now;
    } in
    ok (tt, record d { publish_events = d.publish_events ++ event ∷ []; next_id = d.next_id + 1 })

-- UPDATE cms_publications SET content_id, content_revision WHERE idempotency_key = $1
unfoldable pub update_publication : Text → ℕ → ℕ → Query Catalogue (Unit {0})
unfolding text_eq
update_publication key content revision d = ok (
  tt,
  record d {
    publications =
        update_rows (publication_key key)
          (λ p. record p { content_id = some content; content_revision = some revision })
          d.publications;
  },
)
