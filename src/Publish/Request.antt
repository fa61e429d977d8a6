-- ===== src/Publish/Request.antt =====
-- Service.Publish around its transaction (internal/publishing/service.go): the validation, the lookup
-- by the idempotency key, the upload of the audio, and the second lookup where the key was taken in
-- the meantime.
use el_backend.Publish.Statements.{select_publication}
use el_backend.Catalogue.Schema.{Catalogue}
use el_backend.Retell.{ObjectStore}
use el_backend.Publish.Document.{Document, validate}
use el_backend.Database.{
  audio_integrity, reservation_lost, already_reserved, unavailable, transact, World, on_pool, Error,
}
use el_backend.Publish.Service.{publish_body, object_key, Result, Marshal}
use el_backend.Text.{text_eq, Unicode, Text}
use el_backend.Base.{none, false, err, some, ok, ℕ, true, Option, Bool, Outcome}

-- what arrives: the digest is the one, in hexadecimal, of the bytes that Put has read
pub record Incoming : Type 0 where
  pub key : Text
  pub document : Document
  pub digest : Text

-- what the program is run with: the encodings, its environment, the object store, the time of the
-- transaction, and what others commit between the lookup and the transaction
pub record Setting (O : Type 0) : Type 0 where
  pub json : Marshal
  pub environment : Text
  pub store : ObjectStore O
  pub now : ℕ
  pub meanwhile : Catalogue → Catalogue

abbrev pub Ended : Type 0 → Type 0
Ended O = Outcome Error Result × (World Catalogue × O)

abbrev pub existing_result : Text → Option (ℕ × ℕ) → Option Result
existing_result environment none = none
existing_result environment (some (content, revision)) = some (record {
  content_id = content;
  revision = revision;
  environment = environment;
  duplicate = true;
})

abbrev pub is_reserved : Error → Bool
is_reserved already_reserved = true
is_reserved _ = false

module _ ⦃u : Unicode⦄ {O : Type 0} (s : Setting O) where
  -- existing, with Duplicate set
  abbrev pub lookup : Text → World Catalogue → Outcome Error (Option (ℕ × ℕ)) × World Catalogue
  lookup key w = on_pool (select_publication key) w

  unfoldable pub after_second : Outcome Error (Option (ℕ × ℕ)) × World Catalogue → O → Ended O
  after_second (err e, w) o = (err e, (w, o))
  after_second (ok none, w) o = (err reservation_lost, (w, o))
  after_second (ok (some (content, revision)), w) o = (
    ok (record {
      content_id = content;
      revision = revision;
      environment = s.environment;
      duplicate = true;
    }),
    (w, o),
  )

  unfoldable pub after_transaction : Text → Outcome Error Result × World Catalogue → O → Ended O
  unfolding after_second on_pool select_publication
  after_transaction key (ok r, w) o = (ok r, (w, o))
  after_transaction key (err e, w) o = elim (is_reserved e) [
    | true ↦ after_second (lookup key w) o
    | false ↦ (err e, (w, o))
  ]

  unfoldable pub after_audio : Incoming → World Catalogue → Bool × O → Ended O
  unfolding after_transaction publish_body transact text_eq
  after_audio q w (false, o) = (err unavailable, (w, o))
  after_audio q w (true, o) = elim (text_eq q.digest q.document.audio.sha256) [
    | false ↦ (err audio_integrity, (w, o))
    | true ↦
        after_transaction q.key
          (transact (publish_body s.json s.environment s.now q.key q.document)
            (record w { tables = s.meanwhile w.tables }))
          o
  ]

  unfoldable pub after_lookup :
      Incoming → Outcome Error (Option (ℕ × ℕ)) × World Catalogue → O → Ended O
  unfolding after_audio object_key
  after_lookup q (err e, w) o = (err e, (w, o))
  after_lookup q (ok (some (content, revision)), w) o = (
    ok (record {
      content_id = content;
      revision = revision;
      environment = s.environment;
      duplicate = true;
    }),
    (w, o),
  )
  after_lookup q (ok none, w) o = after_audio q w (s.store.put (object_key q.document) o)

  -- the validation comes first
  abbrev pub after_validation : Incoming → Outcome Error (Unit {0}) → World Catalogue × O → Ended O
  after_validation q (err e) (w, o) = (err e, (w, o))
  after_validation q (ok _) (w, o) = after_lookup q (lookup q.key w) o

  unfoldable pub publish : Incoming → World Catalogue × O → Ended O
  unfolding validate after_lookup on_pool select_publication
  publish q st = after_validation q (validate q.key q.document) st
