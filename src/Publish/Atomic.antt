-- ===== src/Publish/Atomic.antt =====
-- How a publication can end (Service.Publish, internal/publishing/service.go).
use el_backend.Database.Keeps.{with_tables-reads, guard-eq-ok}
use el_backend.Publish.Document.{validate}
use el_backend.Database.Atomic.{transact_atomic, AllOrNothing}
use el_backend.Database.Pool.{on_pool-reads}
use el_backend.Publish.Effect.{Refines-publish, publish_query}
use el_backend.Publish.Service.{object_key, Result}
use el_backend.Publish.Request.{
  is_reserved, after_audio, after_transaction, after_lookup, publish, lookup, Ended, after_second,
  Incoming, Setting,
}
use el_backend.Catalogue.Schema.{Catalogue}
use el_backend.Text.{text_eq, Unicode, valid_string, Text}
use el_backend.Publish.Statements.{publication_key, completed_if_any, select_publication}
use el_backend.Database.{
  violation, audio_integrity, reservation_lost, unavailable, Error, World, Query,
}
use el_backend.Base.{
  find?, false, Outcome-cases, subst, Bool, refl, none, ◌∙◌, ◌⊎◌, some, true, err, Outcome, inr,
  inl, not, Bool-cases, ok, ℕ, ◌≡◌, Option, arith,
}

select_reads :
    (key : Text) (d : Catalogue) (a : Option (ℕ × ℕ)) (d' : Catalogue)
    → select_publication key d ≡ ok (a, d')
    → d' ≡ d
unfolding select_publication
select_reads key d a d' h =
    with_tables-reads (completed_if_any (find? (publication_key key) d.publications)) d d' a
      (guard-eq-ok (not (valid_string key)) violation _ h).1

module _ ⦃u : Unicode⦄ {O : Type 0} (s : Setting O) (q : Incoming) where
  abbrev pub effect : Query Catalogue Result
  effect = publish_query s.json s.environment s.now q.key q.document

  -- the document is valid, and its audio is in the store with the digest that it states
  pub record Accepted (o : O) : Type 0 where
    pub valid : validate q.key q.document ≡ ok tt
    pub digest : text_eq q.digest q.document.audio.sha256 ≡ true
    pub stored : s.store.holds (object_key q.document) o ≡ true

  -- how a publication ends, and the tables and objects it leaves behind
  pub data Ending (before : Catalogue) (o : O) : Outcome Error Result → Catalogue → Type 0 where
    -- an error, and the tables have not changed
    refused : (e : Error) → Ending before o (err e) before
    -- the result stored under the key, and the tables have not changed
    repeated :
        (r : Result)
        → r.duplicate ≡ true
        → select_publication q.key before ≡ ok (some (r.content_id, r.revision), before)
        → Ending before o (ok r) before
    -- the whole publication, also where the reply to the commit is lost
    made :
        (r : Result) (after : Catalogue)
        → Accepted o
        → effect before ≡ ok (r, after)
        → Ending before o (ok r) after
    unanswered :
        (r : Result) (after : Catalogue)
        → Accepted o
        → effect before ≡ ok (r, after)
        → Ending before o (err unavailable) after

  -- an ending, and the tables it began with: those of the lookup, or what others have made of them
  abbrev pub Ends : Catalogue → Ended O → Type 0
  Ends d r =
      (before : Catalogue) × ((before ≡ d) ⊎ (before ≡ s.meanwhile d))
      × Ending before r.1.1 r.0 r.1.0.tables

  second-Ends :
      (d : Catalogue) (w : World Catalogue) (o : O)
      → (w.tables ≡ d) ⊎ (w.tables ≡ s.meanwhile d)
      → Ends d (after_second s (lookup s q.key w) o)
  unfolding after_second
  second-Ends d w o b =
      from (lookup s q.key w) (on_pool-reads (select_publication q.key) (select_reads q.key) w)
    where
      from :
          (r : Outcome Error (Option (ℕ × ℕ)) × World Catalogue)
          → (r.1.tables ≡ w.tables)
            × (((a : Option (ℕ × ℕ)) × (r.0 ≡ ok a)
                  × (select_publication q.key w.tables ≡ ok (a, w.tables)))
                ⊎ ((e : Error) × (r.0 ≡ err e)))
          → Ends d (after_second s r o)
      from (err e, v) (t, c) = (w.tables, b, rw t (refused e))
      from (ok none, v) (t, c) = (w.tables, b, rw t (refused reservation_lost))
      from (ok (some (content, revision)), v) (t, inl (a, e, k)) =
          (w.tables, b, rw t (repeated _ refl (k ∙ cc (e))))
      from (ok (some (content, revision)), v) (t, inr (x, e)) = absurd (ground arith)

  transaction-Ends :
      (d : Catalogue) (r : Outcome Error Result × World Catalogue) (o : O)
      → Accepted o
      → AllOrNothing r.0 (s.meanwhile d) r.1.tables effect
      → Ends d (after_transaction s q.key r o)
  unfolding after_transaction
  transaction-Ends d (ok r, w) o g a = (s.meanwhile d, inr refl, made r w.tables g (a.made r refl))
  transaction-Ends d (err e, w) o g a = elim (Bool-cases (is_reserved e)) [
    | inl k ↦ elim (a.failed e refl) [
      | inl t ↦ rw (after_transaction, k) (second-Ends d w o (inr t))
      | inr (x, _) ↦ absurd (ground arith)
    ]
    | inr k ↦ elim (a.failed e refl) [
      | inl t ↦ rw (after_transaction, k) (s.meanwhile d, inr refl, rw t (refused e))
      | inr (x, (r, m)) ↦
          rw (after_transaction, k, x) (s.meanwhile d, inr refl, unanswered r w.tables g m)
    ]
  ]

  audio-Ends :
      (w : World Catalogue) (p : Bool × O)
      → validate q.key q.document ≡ ok tt
      → (p.0 ≡ true → s.store.holds (object_key q.document) p.1 ≡ true)
      → Ends w.tables (after_audio s q w p)
  unfolding after_audio
  audio-Ends w (false, o) v h = (w.tables, inl refl, refused unavailable)
  audio-Ends w (true, o) v h = elim (Bool-cases (text_eq q.digest q.document.audio.sha256)) [
    | inl e ↦
        rw (after_audio, e)
          (transaction-Ends w.tables _ o (record { valid = v; digest = e; stored = h refl })
            (transact_atomic _ _ (Refines-publish s.json s.environment s.now q.key q.document)
              (record w { tables = s.meanwhile w.tables })))
    | inr e ↦ rw (after_audio, e) (w.tables, inl refl, refused audio_integrity)
  ]

  lookup-Ends :
      (w : World Catalogue) (o : O)
      → validate q.key q.document ≡ ok tt
      → Ends w.tables (after_lookup s q (lookup s q.key w) o)
  unfolding after_lookup
  lookup-Ends w o valid =
      from (lookup s q.key w) (on_pool-reads (select_publication q.key) (select_reads q.key) w)
    where
      from :
          (r : Outcome Error (Option (ℕ × ℕ)) × World Catalogue)
          → (r.1.tables ≡ w.tables)
            × (((a : Option (ℕ × ℕ)) × (r.0 ≡ ok a)
                  × (select_publication q.key w.tables ≡ ok (a, w.tables)))
                ⊎ ((e : Error) × (r.0 ≡ err e)))
          → Ends w.tables (after_lookup s q r o)
      from (err e, v) (t, c) = (w.tables, inl refl, rw t (refused e))
      from (ok none, v) (t, c) =
          subst (λ d. Ends d (after_audio s q v (s.store.put (object_key q.document) o))) t
            (audio-Ends v (s.store.put (object_key q.document) o) valid
              (s.store.put_holds (object_key q.document) o))
      from (ok (some (content, revision)), v) (t, inl (a, e, k)) =
          (w.tables, inl refl, rw t (repeated _ refl (k ∙ cc (e))))
      from (ok (some (content, revision)), v) (t, inr (x, e)) = absurd (ground arith)

  -- Whatever round trips fail and whatever others commit before its transaction, a publication ends in
  -- one of four ways: with an error and no change of the tables; with the result stored under its key, marked as a
  -- duplicate, and no change; with the result of the whole publication; or, only as unavailable, with
  -- the whole publication made and the reply to the commit lost. In the last two the document is valid
  -- and its audio is in the object store with the digest that the document states.
  pub publish_atomic : (w : World Catalogue) (o : O) → Ends w.tables (publish s q (w, o))
  unfolding publish
  publish_atomic w o = elim (Outcome-cases (validate q.key q.document)) [
    | inl (x, e) ↦ rw (publish, e) (lookup-Ends w o e)
    | inr (x, e) ↦ rw (publish, e) (w.tables, inl refl, refused x)
  ]
