-- ===== src/Publish/Endpoint/Answered.antt =====
-- What the answer to a publication says (internal/httpapi/publishing.go).
use el_backend.Publish.Atomic.{
  effect, refused, repeated, made, unanswered, Ending, Accepted, publish_atomic,
}
use el_backend.Text.Equality.{text_eq_iff}
use el_backend.Publish.Kept.{linked_query-eq-ok}
use el_backend.Publish.Statements.{
  upsert_content, upsert_source, insert_publication, select_publication,
}
use el_backend.Database.Keeps.{after-eq-ok}
use el_backend.Database.{map_err, World, Error}
use el_backend.Publish.Service.{content_row, source_row, taken, publication_row, Result}
use el_backend.Catalogue.Schema.{Catalogue}
use el_backend.Publish.Document.{Document}
use el_backend.Publish.Effect.{publish_query}
use el_backend.Publish.Request.{Incoming, Setting}
use el_backend.Publish.Endpoint.{
  invalid_multipart, unauthorized, document_required, take_document, take_parts, post_publication,
  audio_integrity_failed, is_audio_integrity, document_invalid, is_invalid_document, incoming_of,
  published_as, audio_required, document_limit, publish_failed, problem, read_limited,
  is_authorized, Reply, ErrorCode, reply_of, take_audio, Post, Part, Reader, next_part,
}
use el_backend.Text.{text_eq, codes, Text, Unicode}
use el_backend.Base.{
  none, refl, ◌∙◌, [], inr, ap, Option-cases, subst, inl, false, Bool-cases, ◌<◌, ok, ◌≤◌, ◌⊎◌,
  arith, true, ◌∷◌, some, ◌≡◌, List, ℕ, Option, Outcome,
}

next_part-some :
    (name : Text) (ps : List Part) (a : Part) (rest : List Part)
    → next_part name ps ≡ some (a, rest)
    → (ps ≡ a ∷ rest) × (a.form_name ≡ name)
unfolding next_part
next_part-some name [] a rest h = absurd (ground arith)
next_part-some name (p ∷ ps) a rest h = elim (Bool-cases (text_eq p.form_name name)) [
  | inl e ↦
      let same : p ≡ a = ground arith in
      (cc (same, h), subst (λ x. x.form_name ≡ name) same ((text_eq_iff p.form_name name).0 e))
  | inr e ↦ absurd (ground arith)
]

module _ ⦃u : Unicode⦄ {O : Type 0} (reader : Reader) (s : Setting O) (token : Text) where
  -- the request has the token, and its first two parts are the document and the audio of `q`
  pub record Sent (p : Post) (q : Incoming) : Type 0 where
    pub authorized : is_authorized reader token p ≡ true
    pub document_part : Part
    pub audio_part : Part
    pub rest : List Part
    pub parts : p.parts ≡ some (document_part ∷ audio_part ∷ rest)
    pub document_name : document_part.form_name ≡ codes "document"
    pub audio_name : audio_part.form_name ≡ codes "audio"
    pub body : List ℕ
    pub within : read_limited document_limit document_part.body ≡ some body
    pub decoded : reader.decode_document body ≡ some q.document
    pub key : q.key ≡ p.idempotency_key
    pub digest : q.digest ≡ reader.audio_sum audio_part.body.bytes

  -- the answer, the tables and the objects that a request leaves behind
  pub data Answered (p : Post) (before : Catalogue) (o : O) : Reply → Catalogue → Type 0 where
    -- the client is at fault, and the tables have not changed
    declined :
        (status : ℕ) (code : ErrorCode)
        → 400 ≤ status
        → status < 500
        → Answered p before o (problem status code) before
    -- the publisher has failed, and the tables have not changed
    failed : (q : Incoming) → Sent p q → Answered p before o (problem 500 publish_failed) before
    -- the result is the one stored under the key, and the tables have not changed
    confirmed :
        (q : Incoming) (r : Result)
        → Sent p q
        → select_publication q.key before ≡ ok (some (r.content_id, r.revision), before)
        → Answered p before o (published_as 200 r) before
    -- the whole publication
    created :
        (q : Incoming) (r : Result) (after : Catalogue)
        → Sent p q
        → Accepted s q o
        → effect s q before ≡ ok (r, after)
        → Answered p before o (published_as 201 r) after
    -- the whole publication, and the reply to the commit is lost
    unconfirmed :
        (q : Incoming) (r : Result) (after : Catalogue)
        → Sent p q
        → Accepted s q o
        → effect s q before ≡ ok (r, after)
        → Answered p before o (problem 500 publish_failed) after

  abbrev pub Answers : Post → Catalogue → Reply × (World Catalogue × O) → Type 0
  Answers p d x =
      (before : Catalogue) × ((before ≡ d) ⊎ (before ≡ s.meanwhile d))
      × Answered p before x.1.1 x.0 x.1.0.tables

  declines :
      (p : Post) (status : ℕ) (code : ErrorCode) (st : World Catalogue × O)
      → 400 ≤ status
      → status < 500
      → Answers p st.0.tables (problem status code, st)
  declines p status code st low high = (st.0.tables, inl refl, declined status code low high)

  publish_query-fresh :
      (q : Incoming) (before : Catalogue) (r : Result) (after : Catalogue)
      → effect s q before ≡ ok (r, after)
      → r.duplicate ≡ false
  unfolding publish_query
  publish_query-fresh q before r after h =
      let row = publication_row s.json q.key q.document in
      let (_, t0, _, h0) =
        after-eq-ok (map_err taken (insert_publication (s.json.refused q.document) row before)) _
          h in
      let (source, t1, _, h1) = after-eq-ok (upsert_source (source_row s.now q.document) t0) _ h0 in
      let ((content, revision), t2, _, h2) =
        after-eq-ok (upsert_content (content_row s.json s.now source q.document) t1) _ h1 in
      let (m, _, _, e) =
        linked_query-eq-ok s.environment s.now q.key q.document content revision t2 r after h2 in
      ap (λ (x : Result). x.duplicate) e

  Ending-Answered :
      (p : Post) (q : Incoming)
      → Sent p q
      → (before : Catalogue) (o : O) (x : Outcome Error Result) (after : Catalogue)
      → Ending s q before o x after
      → Answered p before o (reply_of x) after
  unfolding reply_of
  Ending-Answered p q sent before o _ _ (refused e) = elim (Bool-cases (is_invalid_document e)) [
    | inl h ↦ rw h (declined 422 document_invalid (omega arith) (omega arith))
    | inr h ↦ elim (Bool-cases (is_audio_integrity e)) [
      | inl h' ↦ rw (h, h') (declined 422 audio_integrity_failed (omega arith) (omega arith))
      | inr h' ↦ rw (h, h') (failed q sent)
    ]
  ]
  Ending-Answered p q sent before o _ _ (repeated r d h) = simp d (confirmed q r sent h)
  Ending-Answered p q sent before o _ _ (made r after a h) =
      simp (publish_query-fresh q before r after h) (created q r after sent a h)
  Ending-Answered p q sent before o _ _ (unanswered r after a h) = unconfirmed q r after sent a h

  take_audio-Answers :
      (p : Post) (document_part : Part) (rest : List Part) (body : List ℕ) (document : Document)
      → is_authorized reader token p ≡ true
      → p.parts ≡ some (document_part ∷ rest)
      → document_part.form_name ≡ codes "document"
      → read_limited document_limit document_part.body ≡ some body
      → reader.decode_document body ≡ some document
      → (st : World Catalogue × O)
      → Answers p st.0.tables (take_audio reader s p document (next_part (codes "audio") rest) st)
  unfolding take_audio
  take_audio-Answers p document_part rest body document authorized parts name within decoded st =
      elim (Option-cases (next_part (codes "audio") rest)) [
        | inl e ↦ rw e (declines p 400 audio_required st (omega arith) (omega arith))
        | inr ((audio, after), e) ↦
            let (tail, audio_name) = next_part-some (codes "audio") rest audio after e in
            let q = incoming_of reader s p document audio in
            let sent : Sent p q = record {
              authorized = authorized;
              document_part = document_part;
              audio_part = audio;
              rest = after;
              parts = parts ∙ ap (λ x. some (document_part ∷ x)) tail;
              document_name = name;
              audio_name = audio_name;
              body = body;
              within = within;
              decoded = decoded;
              key = refl;
              digest = refl;
            } in
            let (before, b, ending) = publish_atomic s q st.0 st.1 in
            rw e (before, b, Ending-Answered p q sent before _ _ _ ending)
      ]

  take_document-Answers :
      (p : Post) (parts : List Part) (w : World Catalogue) (o : O)
      → is_authorized reader token p ≡ true
      → p.parts ≡ some parts
      → Answers p w.tables (take_document reader s p (next_part (codes "document") parts) (w, o))
  unfolding take_document
  take_document-Answers p parts w o a e = elim (Option-cases (next_part (codes "document") parts)) [
    | inl n ↦ rw n (declines p 400 document_required (w, o) (omega arith) (omega arith))
    | inr ((part, rest), n) ↦
        let (all, name) = next_part-some (codes "document") parts part rest n in
        rw n (elim (Option-cases (read_limited document_limit part.body)) [
          | inl r ↦
              rw (take_document, r)
                (declines p 400 document_invalid (w, o) (omega arith) (omega arith))
          | inr (body, r) ↦
              rw (take_document, r)
                (elim (Option-cases (reader.decode_document body)) [
                  | inl c ↦
                      rw c (declines p 400 document_invalid (w, o) (omega arith) (omega arith))
                  | inr (d, c) ↦ rw c (
                      take_audio-Answers p part rest body d a (e ∙ ap (λ x. some x) all) name r c
                        (w, o))
                ])
        ])
  ]

  take_parts-Answers :
      (p : Post) (parts : Option (List Part)) (w : World Catalogue) (o : O)
      → is_authorized reader token p ≡ true
      → p.parts ≡ parts
      → Answers p w.tables (take_parts reader s p parts (w, o))
  unfolding take_parts
  take_parts-Answers p none w o a e =
      declines p 400 invalid_multipart (w, o) (omega arith) (omega arith)
  take_parts-Answers p (some parts) w o a e = take_document-Answers p parts w o a e

  -- Whatever round trips fail and whatever others commit meanwhile: an answer from 400 to 499 leaves
  -- the tables as they were. Any other answer is to a request with the token, whose first part is a
  -- document that can be decoded and whose second is its audio: 201 has made the whole publication of
  -- that document under the key of the header, with the audio stored; 200 repeats the result that is
  -- stored under the key and changes nothing; and 500 means that nothing has changed, or that the
  -- whole publication is made.
  pub post_publication-Answers :
      (p : Post) (w : World Catalogue) (o : O)
      → Answers p w.tables (post_publication reader s token p (w, o))
  unfolding post_publication
  post_publication-Answers p w o = elim (Bool-cases (is_authorized reader token p)) [
    | inr a ↦
        rw (post_publication, a) (declines p 401 unauthorized (w, o) (omega arith) (omega arith))
    | inl a ↦ rw (post_publication, a) (take_parts-Answers p p.parts w o a refl)
  ]
