-- ===== src/Publish/Visible.antt =====
-- What a publication leaves behind (Service.Publish, internal/publishing/service.go), as the public
-- API sees it.
use el_backend.Publish.Statements.{publication_key}
use el_backend.Publish.Effect.{audio_query}
use el_backend.Base.Int.{pos}
use el_backend.Text.Equality.{text_eq_refl}
use el_backend.Database.{then_query, Query, violation}
use el_backend.Database.Keeps.{after-eq-ok, ok-injective, guard-eq-ok}
use el_backend.Catalogue.Queries.{playable, is_audio}
use el_backend.Database.Table.{
  delete_rows, update_rows, find-passes, any-find, find-weaken, find-upsert_self, merged, any,
}
use el_backend.Publish.Service.{asset_row, audio_url}
use el_backend.Catalogue.Schema.{PublishEvent, ContentAsset, Catalogue, Asset}
use el_backend.Publish.Assets.{
  update_publication, insert_publish_event, delete_other_audio, link_content_asset, merge_asset,
  of_url, upsert_asset,
}
use el_backend.Publish.Document.{Document}
use el_backend.Text.{Text, codes, text_eq, Unicode}
use el_backend.Base.{
  not, ◌∙◌, [], ◌∷◌, ◌++◌, inr, refl, ==_refl, none, inl, some, Option, find?, List, true, ◌&&◌,
  ◌==◌, ◌⊎◌, false, ok, ◌≡◌, All, ℕ, arith,
}

module _ ⦃u : Unicode⦄ where
  -- the audio of the document's earlier publications is of the kind audio
  abbrev pub OnlyAudio : Document → Asset → Type 0
  OnlyAudio d a = (of_url (audio_url d) a ≡ false) ⊎ (text_eq a.kind (codes "audio") ≡ true)

  -- the row of the asset, whether it is new or was there
  abbrev stored_asset : ℕ → Document → Catalogue → Asset
  stored_asset now d t =
      merged (record (asset_row now d) { id = t.next_id }) (merge_asset (asset_row now d))
        (find? (of_url (audio_url d)) t.assets)

  merged-is_audio :
      (now : ℕ) (d : Document) (i : ℕ) (o : Option Asset)
      → ((a : Asset) → o ≡ some a → text_eq a.kind (codes "audio") ≡ true)
      → is_audio (merged (record (asset_row now d) { id = i }) (merge_asset (asset_row now d)) o)
        ≡ true
  unfolding merge_asset
  merged-is_audio now d i none h =
      rw (text_eq_refl (codes "audio"), text_eq_refl (codes "available")) refl
  merged-is_audio now d i (some a) h = rw (h a refl, text_eq_refl (codes "available")) refl

  kind_of_found :
      (d : Document) (rows : List Asset)
      → All (OnlyAudio d) rows
      → (a : Asset) → find? (of_url (audio_url d)) rows ≡ some a
      → text_eq a.kind (codes "audio") ≡ true
  kind_of_found d rows k a h = elim (find-weaken (of_url (audio_url d)) (OnlyAudio d) rows a h k) [
    | inl e ↦ absurd (ground (arith, find-passes (of_url (audio_url d)) rows a h))
    | inr e ↦ e
  ]

  upsert_asset-any :
      (now : ℕ) (d : Document) (t : Catalogue) (asset : ℕ) (t' : Catalogue)
      → All (OnlyAudio d) t.assets
      → upsert_asset (asset_row now d) t ≡ ok (asset, t')
      → any (λ a. a.id == asset && is_audio a) t'.assets ≡ true
  unfolding upsert_asset
  upsert_asset-any now d t asset t' k h =
      let url = audio_url d in
      let (_, e) = guard-eq-ok _ violation _ h in
      let same : (stored_asset now d t).id ≡ asset = (ok-injective e).0 in
      let rest = (ok-injective e).1 in
      let named : ((stored_asset now d t).id == asset) ≡ true = rw same (==_refl asset) in
      let found =
        find-upsert_self (of_url url) (record (asset_row now d) { id = t.next_id })
          (merge_asset (asset_row now d)) (text_eq_refl url) (λ r p. p) t.assets in
      let audio =
        merged-is_audio now d t.next_id (find? (of_url url) t.assets)
          (kind_of_found d t.assets k) in
      rw (← rest) (any-find (of_url url) _ _ (stored_asset now d t) found (rw (named, audio) refl))

  -- the row that links the content to its audio
  abbrev audio_link : ℕ → ℕ → ContentAsset
  audio_link content asset = record {
    content_id = content;
    asset_id = asset;
    role = codes "audio";
    position = pos 0;
  }

  link-playable :
      (content asset : ℕ) (t : Catalogue) (t' : Catalogue)
      → any (λ a. a.id == asset && is_audio a) t.assets ≡ true
      → link_content_asset content asset t ≡ ok (tt, t')
      → playable t' content ≡ true
  unfolding link_content_asset playable
  link-playable content asset t t' k h =
      let hits = λ (ca : ContentAsset).
        ca.content_id == content && ca.asset_id == asset && text_eq ca.role (codes "audio") in
      let merge = λ (ca : ContentAsset). record ca { position = pos 0 } in
      let self : hits (audio_link content asset) ≡ true =
        rw (==_refl content, ==_refl asset, text_eq_refl (codes "audio")) refl in
      let found =
        find-upsert_self hits (audio_link content asset) merge self (λ r p. p) t.content_assets in
      let row = merged (audio_link content asset) merge (find? hits t.content_assets) in
      let passes = find-passes hits _ row found in
      let mine : (row.content_id == content) ≡ true = ground arith in
      let other : row.asset_id ≡ asset = ground arith in
      rw (← (ok-injective h).1) (
        any-find hits
          (λ ca. ca.content_id == content && any (λ a. a.id == ca.asset_id && is_audio a) t.assets)
          _ row found (rw (mine, other, k) refl))

  abbrev pub event_row : ℕ → ℕ → ℕ → ℕ → PublishEvent
  event_row now content revision sequence = record {
    sequence = sequence;
    entity_type = codes "content";
    entity_id = content;
    operation = codes "upsert";
    revision = some revision;
    published_at = now;
  }

  -- what the last statements of a publication have done
  pub record Audible (now : ℕ) (key : Text) (content revision : ℕ) (t t' : Catalogue) : Type 0 where
    pub plays : playable t' content ≡ true
    pub contents : t'.contents ≡ t.contents
    pub number : ℕ
    pub events : t'.publish_events ≡ t.publish_events ++ event_row now content revision number ∷ []
    pub publications :
        t'.publications
        ≡ update_rows
            (publication_key key)
            (λ p. record p { content_id = some content; content_revision = some revision })
            t.publications

  pub upsert_asset-others :
      (now : ℕ) (d : Document) (t : Catalogue) (asset : ℕ) (t' : Catalogue)
      → upsert_asset (asset_row now d) t ≡ ok (asset, t')
      → (t'.contents ≡ t.contents)
        × (t'.publish_events ≡ t.publish_events)
        × (t'.publications ≡ t.publications)
  unfolding upsert_asset
  upsert_asset-others now d t asset t' h =
      let (_, e) = guard-eq-ok _ violation _ h in
      let rest = (ok-injective e).1 in rw (← rest) (refl, refl, refl)

  abbrev tail_query : ℕ → Text → ℕ → ℕ → ℕ → Query Catalogue (Unit {0})
  tail_query now key content revision asset = then_query (delete_other_audio content asset) λ _.
      then_query (link_content_asset content asset) λ _.
        then_query (insert_publish_event now content revision)
          λ _. update_publication key content revision

  tail-Audible :
      (now : ℕ) (key : Text) (content revision asset : ℕ) (t t' : Catalogue)
      → any (λ a. a.id == asset && is_audio a) t.assets ≡ true
      → tail_query now key content revision asset t ≡ ok (tt, t')
      → Audible now key content revision t t'
  unfolding delete_other_audio insert_publish_event update_publication link_content_asset playable
  tail-Audible now key content revision asset t t' k h =
      let end = (ok-injective h).1 in
      rw (← end) (record {
        plays =
            link-playable content asset
              (record t {
                content_assets =
                    delete_rows
                      (λ ca.
                        ca.content_id == content
                        && any
                            (λ a.
                              a.id == ca.asset_id
                              && text_eq a.kind (codes "audio")
                              && not (a.id == asset))
                            t.assets)
                      t.content_assets;
              })
              _ k refl;
        contents = refl;
        number = t.next_id;
        events = refl;
        publications = refl;
      })

  pub audio-Audible :
      (now : ℕ) (key : Text) (d : Document) (content revision : ℕ) (t t' : Catalogue)
      → All (OnlyAudio d) t.assets
      → audio_query now key d content revision t ≡ ok (tt, t')
      → Audible now key content revision t t'
  audio-Audible now key d content revision t t' k h =
      let (asset, t1, e1, h1) = after-eq-ok (upsert_asset (asset_row now d) t) _ h in
      let end =
        tail-Audible now key content revision asset t1 t' (upsert_asset-any now d t asset t1 k e1)
          h1 in
      let (contents, events, publications) = upsert_asset-others now d t asset t1 e1 in
      record {
        plays = end.plays;
        contents = end.contents ∙ contents;
        number = end.number;
        events = end.events ∙ rw events refl;
        publications = end.publications ∙ rw publications refl;
      }
