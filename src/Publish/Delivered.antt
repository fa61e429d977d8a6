-- ===== src/Publish/Delivered.antt =====
-- The composition of a publication (Service.Publish, internal/publishing/service.go) with the public
-- API: what a publication that succeeds has made is what the API lists and delivers.
use el_backend.Publish.Origin.{Origin, publication-Origin}
use el_backend.Publish.Request.{publish, Incoming, Setting}
use el_backend.Publish.Atomic.{publish_atomic, Ending, refused, repeated, made, unanswered}
use el_backend.Database.{Error, World, map_err}
use el_backend.Database.Keeps.{map_err-ok, after-eq-ok}
use el_backend.Text.Equality.{text_eq_refl}
use el_backend.Publish.Kept.{Core, linked_query-eq-ok}
use el_backend.Publish.Effect.{publish_query, linked_query}
use el_backend.Database.Table.{any-find}
use el_backend.Publish.Outcome.{
  select-updated, upsert_content-Written, source_kept, reserved, Succeeds,
}
use el_backend.Publish.Statements.{
  publication_key, select_publication, upsert_content, upsert_source, insert_publication, of_source,
}
use el_backend.Publish.Visible.{event_row, audio-Audible, OnlyAudio}
use el_backend.Catalogue.Queries.{listed}
use el_backend.Catalogue.Schema.{PublishEvent, Content, Catalogue}
use el_backend.Catalogue.Changes.{shown}
use el_backend.Publish.Document.{Document}
use el_backend.Publish.Service.{
  taken, content_row, source_row, metadata_of, publication_row, Result, Marshal,
}
use el_backend.Text.{codes, text_eq, Text, Unicode}
use el_backend.Base.{
  inr, inl, Outcome, ◌⊎◌, false, sym, subst, refl, ◌∙◌, ap, ==_refl, ◌&&◌, [], ◌==◌, ◌∷◌, ◌++◌,
  true, ok, some, ◌≡◌, Bool, find?, All, ℕ, arith,
}

module _ ⦃u : Unicode⦄ (json : Marshal) (environment : Text) (now : ℕ) (key : Text)
    (d : Document) where
  pub record Delivered (before : Catalogue) (r : Result) (after : Catalogue) : Type 0 where
    -- the content of the document's source: new, or the one that was there with the next revision
    pub source : ℕ
    pub origin : Origin d before after source
    pub content : Content
    pub found : find? (of_source source) after.contents ≡ some content
    pub ids : content.id ≡ r.content_id
    pub revisions : content.revision ≡ r.revision
    pub succeeds : Succeeds (find? (of_source source) before.contents) r.content_id r.revision
    pub title : content.title ≡ d.title
    pub metadata : content.metadata ≡ json.metadata_json (metadata_of d)
    pub released : content.released_at ≡ some now
    -- it is published and playable
    pub listed_now : listed after content ≡ true
    -- one event tells of it, and GET /sync shows that event
    pub event : PublishEvent
    pub logged : after.publish_events ≡ before.publish_events ++ event ∷ []
    pub names : (event.entity_id ≡ r.content_id) × (event.revision ≡ some r.revision)
    pub delivered : shown after event ≡ true
    -- the key leads to this result
    pub remembered : select_publication key after ≡ ok (some (r.content_id, r.revision), after)

  shown-listed :
      (t : Catalogue) (c : Content) (p : Content → Bool) (e : PublishEvent)
      → find? p t.contents ≡ some c
      → c.id ≡ e.entity_id
      → text_eq e.entity_type (codes "content") ≡ true
      → listed t c ≡ true
      → shown t e ≡ true
  unfolding shown
  shown-listed t c p e f i k l =
      let named : (c.id == e.entity_id) ≡ true = rw i (==_refl e.entity_id) in
      let both : (c.id == e.entity_id && listed t c) ≡ true = ground arith in
      rw (k, any-find p (λ c. c.id == e.entity_id && listed t c) t.contents c f both) refl

  linked-Delivered :
      (before t0 t1 t2 : Catalogue) (source content revision : ℕ) (r : Result) (after : Catalogue)
      → All (OnlyAudio d) before.assets
      → insert_publication (json.refused d) (publication_row json key d) before ≡ ok (tt, t0)
      → upsert_source (source_row now d) t0 ≡ ok (source, t1)
      → upsert_content (content_row json now source d) t1 ≡ ok ((content, revision), t2)
      → linked_query environment now key d (content, revision) t2 ≡ ok (r, after)
      → Delivered before r after
  unfolding listed
  linked-Delivered before t0 t1 t2 source content revision r after k e0 e1 e2 e3 =
      let (valid, mine, contents0, events0, assets0) =
        reserved (json.refused d) (publication_row json key d) before t0 e0 in
      let (contents1, events1, assets1, publications1) =
        source_kept (source_row now d) t0 source t1 e1 in
      let w =
        upsert_content-Written (content_row json now source d) t1 content revision t2 refl refl
          e2 in
      let (m, same, e4, result) =
        linked_query-eq-ok environment now key d content revision t2 r after e3 in
      let assets : m.assets ≡ before.assets =
        ap (λ (c : Core). c.assets) same ∙ w.assets ∙ assets1 ∙ assets0 in
      let a = audio-Audible now key d content revision m after (rw assets k) e4 in
      let contents : after.contents ≡ t2.contents =
        a.contents ∙ ap (λ (c : Core). c.contents) same in
      let found =
        subst (λ cs. find? (of_source source) cs ≡ some w.content) (sym contents) w.found in
      let live : listed after w.content ≡ true = rw (w.status, w.ids, a.plays) refl in
      let event = event_row now content revision a.number in
      let publications : m.publications ≡ t0.publications =
        ap (λ (c : Core). c.publications) same ∙ w.publications ∙ publications1 in
      rw result (record {
        source = source;
        origin =
            publication-Origin json now key d before t0 t1 t2 m after source content revision e0 e1
              e2 same e4;
        content = w.content;
        found = found;
        ids = w.ids;
        revisions = w.revisions;
        succeeds =
            subst (λ cs. Succeeds (find? (of_source source) cs) content revision)
              (contents1 ∙ contents0) w.succeeds;
        title = w.title;
        metadata = w.metadata;
        released = w.released_at;
        listed_now = live;
        event = event;
        logged =
            a.events
            ∙ ap (λ es. es ++ event ∷ [])
                (ap (λ (c : Core). c.publish_events) same ∙ w.events ∙ events1 ∙ events0);
        names = (refl, refl);
        delivered =
            shown-listed after w.content (of_source source) event found w.ids
              (text_eq_refl (codes "content")) live;
        remembered =
            select-updated key content revision m after (publication_row json key d) valid
              (subst (λ ps. find? (publication_key key) ps ≡ some (publication_row json key d))
                (sym publications) mine)
              a.publications;
      })

  publish_query-Delivered :
      (before : Catalogue) (r : Result) (after : Catalogue)
      → All (OnlyAudio d) before.assets
      → publish_query json environment now key d before ≡ ok (r, after)
      → Delivered before r after
  unfolding publish_query
  publish_query-Delivered before r after k h =
      let (_, t0, e0, h0) =
        after-eq-ok
          (map_err taken (insert_publication (json.refused d) (publication_row json key d) before))
          _ h in
      let (source, t1, e1, h1) = after-eq-ok (upsert_source (source_row now d) t0) _ h0 in
      let ((content, revision), t2, e2, h2) =
        after-eq-ok (upsert_content (content_row json now source d) t1) _ h1 in
      linked-Delivered before t0 t1 t2 source content revision r after k
        (map_err-ok taken (insert_publication (json.refused d) (publication_row json key d) before)
          e0)
        e1 e2 h2

-- A publication that reports success and no duplicate has made the content of the source item with
-- its document's source and URL, which is the one that was there or a new one; the content is new, or
-- the one of that item with the next revision, with the document's title and metadata and released now; the content
-- is published and playable, one event at the end of the log tells of it, which GET /sync shows, and
-- the key leads to this result. The tables it began with are those of the lookup or what others have
-- made of them; in these, the audio assets of the document are of the kind audio.
pub publish-Delivered :
    ⦃u : Unicode⦄ {O : Type 0} (s : Setting O) (q : Incoming) (w : World Catalogue) (o : O)
    (r : Result)
    → All (OnlyAudio q.document) w.tables.assets
    → All (OnlyAudio q.document) (s.meanwhile w.tables).assets
    → (publish s q (w, o)).0 ≡ ok r
    → r.duplicate ≡ false
    → (before : Catalogue) × ((before ≡ w.tables) ⊎ (before ≡ s.meanwhile w.tables))
      × Delivered s.json s.environment s.now q.key q.document before r
          (publish s q (w, o)).1.0.tables
publish-Delivered {O = O} s q w o r k k' h f =
    let (before, b, e) = publish_atomic s q w o in
    let audio : All (OnlyAudio q.document) before.assets = elim b [
      | inl x ↦ rw x k
      | inr x ↦ rw x k'
    ] in
    (before, b, ends before (publish s q (w, o)).1.1 (publish s q (w, o)).0 _ audio h e)
  where
    ends :
        (before : Catalogue) (o' : O) (x : Outcome Error Result) (after : Catalogue)
        → All (OnlyAudio q.document) before.assets
        → x ≡ ok r
        → Ending s q before o' x after
        → Delivered s.json s.environment s.now q.key q.document before r after
    ends before o' x after a h (refused e) = absurd (ground arith)
    ends before o' x after a h (repeated r' d m) = absurd (ground arith)
    ends before o' x after a h (made r' t g m) =
        publish_query-Delivered s.json s.environment s.now q.key q.document before r after a
          (m ∙ ap (λ z. ok (z, after)) (cc h))
    ends before o' x after a h (unanswered r' t g m) = absurd (ground arith)
