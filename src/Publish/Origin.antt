-- ===== src/Publish/Origin.antt =====
-- The row of the document's source, in a publication that succeeds (Service.Publish,
-- internal/publishing/service.go).
use el_backend.Database.{no_rows, violation}
use el_backend.Publish.Effect.{audio_query}
use el_backend.Database.Table.{any, find-upsert_self, merged}
use el_backend.Publish.Assets.{
  link_content_asset, update_publication, insert_publish_event, delete_other_audio, upsert_asset,
}
use el_backend.Publish.Service.{content_row, publication_row, asset_row, source_row, Marshal}
use el_backend.Catalogue.Schema.{CmsPublication, SourceItem, Catalogue, Content}
use el_backend.Publish.Statements.{
  publication_key, of_source, content_conflict, bad_duration, source_key, merge_source,
  upsert_source, insert_publication, upsert_content,
}
use el_backend.Text.{valid_string, Text, Unicode}
use el_backend.Publish.Document.{Document}
use el_backend.Database.Keeps.{ok-injective, guard-eq-ok, after-eq-ok}
use el_backend.Text.Equality.{text_eq_refl}
use el_backend.Publish.Kept.{core, Core}
use el_backend.Base.{refl, not, subst, ◌∙◌, ◌||◌, none, ap, some, ok, ◌≡◌, ℕ, Bool, Option, find?}

-- the id of the source: that of the row that is there, or the next one
abbrev pub Continues : Option SourceItem → ℕ → ℕ → Type 0
Continues none next source = source ≡ next
Continues (some s) next source = source ≡ s.id

-- `source` is the id of the row with the document's source and URL
pub record Origin (d : Document) (before after : Catalogue) (source : ℕ) : Type 0 where
  pub row : SourceItem
  pub found : find? (source_key d.source d.source_url) after.source_items ≡ some row
  pub ids : row.id ≡ source
  pub continues :
      Continues (find? (source_key d.source d.source_url) before.source_items) before.next_id source

inserted-sources :
    (refused : Bool) (p : CmsPublication) (t t' : Catalogue)
    → insert_publication refused p t ≡ ok (tt, t')
    → (t'.source_items ≡ t.source_items) × (t'.next_id ≡ t.next_id)
unfolding insert_publication
inserted-sources refused p t t' h =
    let (_, e1) = guard-eq-ok (refused || not (valid_string p.idempotency_key)) violation _ h in
    let (_, e2) =
      guard-eq-ok (any (publication_key p.idempotency_key) t.publications) no_rows _ e1 in
    rw (← (ok-injective e2).1) (refl, refl)

content-sources :
    (new : Content) (t : Catalogue) (a : ℕ × ℕ) (t' : Catalogue)
    → upsert_content new t ≡ ok (a, t')
    → t'.source_items ≡ t.source_items
unfolding upsert_content
content-sources new t a t' h =
    let (_, e) =
      guard-eq-ok
        (bad_duration new.duration_seconds
          || content_conflict new (find? (of_source new.source_item_id) t.contents) t)
        violation _ h in
    rw (← (ok-injective e).1) refl

module _ ⦃u : Unicode⦄ where
  asset-sources :
      (now : ℕ) (d : Document) (t : Catalogue) (asset : ℕ) (t' : Catalogue)
      → upsert_asset (asset_row now d) t ≡ ok (asset, t')
      → t'.source_items ≡ t.source_items
  unfolding upsert_asset
  asset-sources now d t asset t' h =
      let (_, e) = guard-eq-ok _ violation _ h in let rest = (ok-injective e).1 in rw (← rest) refl

  audio-sources :
      (now : ℕ) (key : Text) (d : Document) (content revision : ℕ) (t t' : Catalogue)
      → audio_query now key d content revision t ≡ ok (tt, t')
      → t'.source_items ≡ t.source_items
  unfolding delete_other_audio insert_publish_event update_publication link_content_asset
  audio-sources now key d content revision t t' h =
      let (asset, t1, e1, h1) = after-eq-ok (upsert_asset (asset_row now d) t) _ h in
      rw (← (ok-injective h1).1) (asset-sources now d t asset t1 e1)

  merged-Continues :
      (now : ℕ) (d : Document) (next : ℕ) (o : Option SourceItem)
      → Continues o next
          (merged (record (source_row now d) { id = next }) (merge_source (source_row now d)) o).id
  unfolding merge_source
  merged-Continues now d next none = refl
  merged-Continues now d next (some s) = refl

  upsert_source-Origin :
      (now : ℕ) (d : Document) (t : Catalogue) (source : ℕ) (t' : Catalogue)
      → upsert_source (source_row now d) t ≡ ok (source, t')
      → Origin d t t' source
  unfolding upsert_source merge_source
  upsert_source-Origin now d t source t' h =
      let hits = source_key d.source d.source_url in
      let new = record (source_row now d) { id = t.next_id } in
      let end = ok-injective h in
      rw (← end.1, ← end.0)
        (record {
          row = merged new (merge_source (source_row now d)) (find? hits t.source_items);
          found =
              find-upsert_self hits new (merge_source (source_row now d))
                (rw (text_eq_refl d.source, text_eq_refl d.source_url) refl) (λ r k. k)
                t.source_items;
          ids = refl;
          continues = merged-Continues now d t.next_id (find? hits t.source_items);
        })

  Origin-between :
      (d : Document) (b before t' after : Catalogue) (source : ℕ)
      → before.source_items ≡ b.source_items
      → before.next_id ≡ b.next_id
      → after.source_items ≡ t'.source_items
      → Origin d before t' source
      → Origin d b after source
  Origin-between d b before t' after source e n a h =
      let hits = source_key d.source d.source_url in
      record {
        row = h.row;
        found = ap (find? hits) a ∙ h.found;
        ids = h.ids;
        continues =
            subst (λ next. Continues (find? hits b.source_items) next source) n
              (subst (λ rows. Continues (find? hits rows) before.next_id source) e h.continues);
      }

  pub publication-Origin :
      (json : Marshal) (now : ℕ) (key : Text) (d : Document) (before t0 t1 t2 m after : Catalogue)
      (source content revision : ℕ)
      → insert_publication (json.refused d) (publication_row json key d) before ≡ ok (tt, t0)
      → upsert_source (source_row now d) t0 ≡ ok (source, t1)
      → upsert_content (content_row json now source d) t1 ≡ ok ((content, revision), t2)
      → core m ≡ core t2
      → audio_query now key d content revision m ≡ ok (tt, after)
      → Origin d before after source
  publication-Origin json now key d before t0 t1 t2 m after source content revision e0 e1 e2 same
        e4 =
      let (items, next) =
        inserted-sources (json.refused d) (publication_row json key d) before t0 e0 in
      Origin-between d before t0 t1 after source items next
        (audio-sources now key d content revision m after e4
          ∙ ap (λ (c : Core). c.source_items) same
          ∙ content-sources (content_row json now source d) t1 (content, revision) t2 e2)
        (upsert_source-Origin now d t0 source t1 e1)
