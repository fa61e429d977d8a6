-- ===== src/Publish/Outcome.antt =====
-- The row of the content and the reservation of the key, in a publication that succeeds
-- (Service.Publish, internal/publishing/service.go).
use el_backend.Text.Equality.{text_eq_refl}
use el_backend.Database.{no_rows, violation}
use el_backend.Database.Keeps.{guard-eq-ok, ok-injective}
use el_backend.Database.Table.{
  upsert_row, merged, find-update_self, find-upsert_self, update_rows, any,
}
use el_backend.Text.{valid_string, Text}
use el_backend.Publish.Statements.{
  content_conflict, bad_duration, publication_key, of_source, merge_content, upsert_source,
  select_publication, upsert_content, insert_publication,
}
use el_backend.Catalogue.Schema.{published, Catalogue, SourceItem, CmsPublication, Content}
use el_backend.Base.{
  sym, ap, ==_refl, [], not, ◌||◌, ◌∷◌, none, refl, ◌++◌, true, ◌+◌, some, find?, ok, false, ◌≡◌, ℕ,
  List, Bool, Option, arith,
}

find-append_last :
    {R : Type 0} (p : R → Bool) (rows : List R) (r : R)
    → any p rows ≡ false
    → p r ≡ true
    → find? p (rows ++ r ∷ []) ≡ some r
find-append_last p [] r n h = rw h refl
find-append_last p (x ∷ rows) r n h =
    let e : p x ≡ false = ground arith in rw e (find-append_last p rows r (ground arith) h)

-- the key is taken by the row of this publication
pub reserved :
    (refused : Bool) (p : CmsPublication) (t t' : Catalogue)
    → insert_publication refused p t ≡ ok (tt, t')
    → (valid_string p.idempotency_key ≡ true)
      × (find? (publication_key p.idempotency_key) t'.publications ≡ some p)
      × (t'.contents ≡ t.contents)
      × (t'.publish_events ≡ t.publish_events)
      × (t'.assets ≡ t.assets)
unfolding insert_publication
reserved refused p t t' h =
    let (ok1, e1) = guard-eq-ok (refused || not (valid_string p.idempotency_key)) violation _ h in
    let (ok2, e2) =
      guard-eq-ok (any (publication_key p.idempotency_key) t.publications) no_rows _ e1 in
    let end = (ok-injective e2).1 in
    (
      ground arith,
      rw (← end) (
          find-append_last (publication_key p.idempotency_key) t.publications p ok2
            (text_eq_refl p.idempotency_key)),
      rw (← end) refl,
      rw (← end) refl,
      rw (← end) refl,
    )

-- SELECT after the UPDATE that ends the publication
pub select-updated :
    (key : Text) (content revision : ℕ) (t t' : Catalogue) (p : CmsPublication)
    → valid_string key ≡ true
    → find? (publication_key key) t.publications ≡ some p
    → t'.publications
      ≡ update_rows
          (publication_key key)
          (λ p. record p { content_id = some content; content_revision = some revision })
          t.publications
    → select_publication key t' ≡ ok (some (content, revision), t')
unfolding select_publication
select-updated key content revision t t' p v f h =
    let found =
      find-update_self (publication_key key)
        (λ p. record p { content_id = some content; content_revision = some revision }) (λ r k. k)
        t.publications p f in
    rw (v, h, found) refl

pub source_kept :
    (s : SourceItem) (t : Catalogue) (i : ℕ) (t' : Catalogue)
    → upsert_source s t ≡ ok (i, t')
    → (t'.contents ≡ t.contents)
      × (t'.publish_events ≡ t.publish_events)
      × (t'.assets ≡ t.assets)
      × (t'.publications ≡ t.publications)
unfolding upsert_source
source_kept s t i t' h = let end = (ok-injective h).1 in rw (← end) (refl, refl, refl, refl)

-- the content of a source: a new one, or the one that was there with the next revision
abbrev pub Succeeds : Option Content → ℕ → ℕ → Type 0
Succeeds none id revision = revision ≡ 1
Succeeds (some c) id revision = (id ≡ c.id) × (revision ≡ c.revision + 1)

pub record Written (new : Content) (id revision : ℕ) (t t' : Catalogue) : Type 0 where
  pub content : Content
  pub found : find? (of_source new.source_item_id) t'.contents ≡ some content
  pub ids : content.id ≡ id
  pub revisions : content.revision ≡ revision
  pub title : content.title ≡ new.title
  pub metadata : content.metadata ≡ new.metadata
  pub status : content.status ≡ new.status
  pub released_at : content.released_at ≡ new.released_at
  pub succeeds : Succeeds (find? (of_source new.source_item_id) t.contents) id revision
  pub events : t'.publish_events ≡ t.publish_events
  pub assets : t'.assets ≡ t.assets
  pub publications : t'.publications ≡ t.publications

-- the columns of the new or the merged row
record Merged (new : Content) (old : Option Content) (c : Content) : Type 0 where
  title : c.title ≡ new.title
  metadata : c.metadata ≡ new.metadata
  status : c.status ≡ new.status
  released_at : c.released_at ≡ new.released_at
  succeeds : Succeeds old c.id c.revision

merge-Merged :
    (new : Content) (i : ℕ) (old : Option Content)
    → new.revision ≡ 1
    → new.status ≡ published
    → Merged new old (merged (record new { id = i }) (merge_content new) old)
unfolding merge_content
merge-Merged new i none one live = record {
  title = refl;
  metadata = refl;
  status = refl;
  released_at = refl;
  succeeds = one;
}
merge-Merged new i (some c) one live = record {
  title = refl;
  metadata = refl;
  status = sym live;
  released_at = refl;
  succeeds = (refl, refl);
}

pub upsert_content-Written :
    (new : Content) (t : Catalogue) (id revision : ℕ) (t' : Catalogue)
    → new.revision ≡ 1
    → new.status ≡ published
    → upsert_content new t ≡ ok ((id, revision), t')
    → Written new id revision t t'
unfolding upsert_content merge_content
upsert_content-Written new t id revision t' one live h =
    let old = find? (of_source new.source_item_id) t.contents in
    let row = record new { id = t.next_id } in
    let stored = merged row (merge_content new) old in
    let after : Catalogue = record t {
      contents = upsert_row (of_source new.source_item_id) row (merge_content new) t.contents;
      next_id = t.next_id + 1;
    } in
    let (_, e) =
      guard-eq-ok (bad_duration new.duration_seconds || content_conflict new old t) violation _ h in
    let end : after ≡ t' = (ok-injective e).1 in
    let ids : stored.id ≡ id = ap (λ (p : ℕ × ℕ). p.0) (ok-injective e).0 in
    let revisions : stored.revision ≡ revision = ap (λ (p : ℕ × ℕ). p.1) (ok-injective e).0 in
    let m = merge-Merged new t.next_id old one live in
    rw (← end, ← ids, ← revisions)
      (record {
        content = stored;
        found =
            find-upsert_self (of_source new.source_item_id) row (merge_content new)
              (==_refl new.source_item_id) (λ r p. p) t.contents;
        ids = refl;
        revisions = refl;
        title = m.title;
        metadata = m.metadata;
        status = m.status;
        released_at = m.released_at;
        succeeds = m.succeeds;
        events = refl;
        assets = refl;
        publications = refl;
      })
