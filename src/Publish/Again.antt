-- ===== src/Publish/Again.antt =====
-- A publication that is sent again with its key (Service.Publish, internal/publishing/service.go).
use el_backend.Publish.Visible.{upsert_asset-others}
use el_backend.Publish.Kept.{Core, linked_query-eq-ok}
use el_backend.Publish.Outcome.{select-updated, upsert_content-Written, source_kept, reserved}
use el_backend.Database.Keeps.{ok-injective, map_err-ok, after-eq-ok}
use el_backend.Database.Table.{update_rows}
use el_backend.Publish.Statements.{
  upsert_content, upsert_source, insert_publication, publication_key, select_publication,
}
use el_backend.Publish.Document.{validate, Document}
use el_backend.Publish.Atomic.{repeated, made, publish_atomic, Ending}
use el_backend.Database.{on_pool, map_err, World}
use el_backend.Catalogue.Schema.{Catalogue}
use el_backend.Publish.Service.{
  content_row, source_row, taken, asset_row, publication_row, Result, Marshal,
}
use el_backend.Publish.Effect.{audio_query, publish_query}
use el_backend.Publish.Request.{after_lookup, publish, Incoming, Setting}
use el_backend.Publish.Assets.{
  upsert_asset, link_content_asset, update_publication, insert_publish_event, delete_other_audio,
}
use el_backend.Text.{Text, Unicode}
use el_backend.Base.{true, refl, sym, find?, subst, ◌∙◌, ap, some, ok, ◌≡◌, [], ℕ}

module _ ⦃u : Unicode⦄ where
  -- the end of a publication writes the key's row, and nothing before it takes the row away
  audio-publications :
      (now : ℕ) (key : Text) (d : Document) (content revision : ℕ) (t t' : Catalogue)
      → audio_query now key d content revision t ≡ ok (tt, t')
      → t'.publications
        ≡ update_rows
            (publication_key key)
            (λ p. record p { content_id = some content; content_revision = some revision })
            t.publications
  unfolding delete_other_audio insert_publish_event update_publication link_content_asset
  audio-publications now key d content revision t t' h =
      let (asset, t1, e1, h1) = after-eq-ok (upsert_asset (asset_row now d) t) _ h in
      let (_, _, publications) = upsert_asset-others now d t asset t1 e1 in
      rw (← (ok-injective h1).1, publications) refl

  publish_query-remembered :
      (json : Marshal) (environment : Text) (now : ℕ) (key : Text) (d : Document)
      (before : Catalogue) (r : Result) (after : Catalogue)
      → publish_query json environment now key d before ≡ ok (r, after)
      → select_publication key after ≡ ok (some (r.content_id, r.revision), after)
  unfolding publish_query
  publish_query-remembered json environment now key d before r after h =
      let row = publication_row json key d in
      let (_, t0, e0, h0) =
        after-eq-ok (map_err taken (insert_publication (json.refused d) row before)) _ h in
      let (source, t1, e1, h1) = after-eq-ok (upsert_source (source_row now d) t0) _ h0 in
      let ((content, revision), t2, e2, h2) =
        after-eq-ok (upsert_content (content_row json now source d) t1) _ h1 in
      let (valid, mine, _, _, _) =
        reserved (json.refused d) row before t0
          (map_err-ok taken (insert_publication (json.refused d) row before) e0) in
      let (_, _, _, publications1) = source_kept (source_row now d) t0 source t1 e1 in
      let w =
        upsert_content-Written (content_row json now source d) t1 content revision t2 refl refl
          e2 in
      let (m, same, e4, result) =
        linked_query-eq-ok environment now key d content revision t2 r after h2 in
      let publications : m.publications ≡ t0.publications =
        ap (λ (c : Core). c.publications) same ∙ w.publications ∙ publications1 in
      rw result (
        select-updated key content revision m after row valid
          (subst (λ ps. find? (publication_key key) ps ≡ some row) (sym publications) mine)
          (audio-publications now key d content revision m after e4))

  module _ {O : Type 0} (s : Setting O) (q : Incoming) where
    abbrev calm : Catalogue → World Catalogue
    calm d = record { tables = d; faults = [] }

    repeat :
        (s' : Setting O) (q' : Incoming)
        → validate q'.key q'.document ≡ ok tt
        → (t : Catalogue) (content revision : ℕ) (o' : O)
        → select_publication q'.key t ≡ ok (some (content, revision), t)
        → publish s' q' (calm t, o') ≡ (
          ok (record {
            content_id = content;
            revision = revision;
            environment = s'.environment;
            duplicate = true;
          }),
          (calm t, o'),
        )
    unfolding publish on_pool after_lookup
    repeat s' q' valid t content revision o' h = rw (publish, valid, on_pool, h) refl

    Ending-remembered :
        (before : Catalogue) (o : O) (r : Result) (after : Catalogue)
        → Ending s q before o (ok r) after
        → select_publication q.key after ≡ ok (some (r.content_id, r.revision), after)
    Ending-remembered before o r after (repeated _ _ h) = h
    Ending-remembered before o r after (made _ _ _ h) =
        publish_query-remembered s.json s.environment s.now q.key q.document before r after h

    -- After a publication that succeeded, whatever failed on the way, a later one with its key and a
    -- valid document, in which no round trip fails, gives the same content and revision, marked as a
    -- duplicate, and changes neither the tables nor the objects.
    pub publish_again :
        (w : World Catalogue) (o : O) (r : Result)
        → (publish s q (w, o)).0 ≡ ok r
        → (s' : Setting O) (q' : Incoming) → q'.key ≡ q.key
        → validate q'.key q'.document ≡ ok tt
        → (o' : O)
        → publish s' q' (calm (publish s q (w, o)).1.0.tables, o') ≡ (
          ok (record {
            content_id = r.content_id;
            revision = r.revision;
            environment = s'.environment;
            duplicate = true;
          }),
          (calm (publish s q (w, o)).1.0.tables, o'),
        )
    publish_again w o r h s' q' same valid o' =
        let (before, _, e) = publish_atomic s q w o in
        repeat s' q' valid (publish s q (w, o)).1.0.tables r.content_id r.revision o' (
          rw same (
            Ending-remembered before (publish s q (w, o)).1.1 r _ (
              subst
                (λ x. Ending s q before (publish s q (w, o)).1.1 x (publish s q (w, o)).1.0.tables)
                h e)))
