-- ===== src/Publish/Endpoint.antt =====
-- POST /internal/v1/publications (internal/httpapi/publishing.go): the bearer token, the parts of the
-- request in their order, and the status of each way in which the publisher can end. The digest and
-- json.Unmarshal are arguments, and so is what the multipart reader makes of the body, which stops at
-- 260 MB.
use el_backend.Catalogue.Schema.{Catalogue}
use el_backend.Publish.Document.{Document}
use el_backend.Publish.Request.{publish, Incoming, Setting}
use el_backend.Database.{audio_integrity, invalid_document, World, Error}
use el_backend.Text.{codes, has_prefix, Text, Unicode, text_eq}
use el_backend.Publish.Service.{Result}
use el_backend.Base.{
  true, take, false, ◌||◌, some, ◌∷◌, ltb, ok, length, [], err, not, String, drop, none, ◌&&◌,
  if◌then◌else◌, List, ℕ, Bool, Option, Outcome,
}
use el_backend.Text.Prefix.{trim_prefix}
pub mod Answered
pub mod Token

-- what can be read from a part, and whether the reading ends with an error
pub record Stream : Type 0 where
  pub bytes : List ℕ
  pub fails : Bool

pub record Part : Type 0 where
  pub form_name : Text
  pub body : Stream

-- a request: the two headers, and the parts up to the first that NextPart fails on; none is a body
-- that is not multipart
pub record Post : Type 0 where
  pub authorization : Text
  pub idempotency_key : Text
  pub parts : Option (List Part)

-- sha256.Sum256 of a text, the same in hexadecimal of the audio, and json.Unmarshal
pub record Reader : Type 0 where
  pub sum : Text → Text
  pub audio_sum : List ℕ → Text
  pub decode_document : List ℕ → Option Document

pub data ErrorCode : Type 0 where
  unauthorized invalid_multipart document_required document_invalid audio_required : ErrorCode
  audio_integrity_failed publish_failed : ErrorCode

-- the status and what the body carries
pub data Reply : Type 0 where
  problem : ℕ → ErrorCode → Reply
  published_as : ℕ → Result → Reply

abbrev pub status_of : Reply → ℕ
status_of (problem status code) = status
status_of (published_as status r) = status

abbrev pub provided : Post → Text
provided p = trim_prefix p.authorization (codes "Bearer ")

-- the test of bearerAuth
unfoldable pub is_authorized : Reader → Text → Post → Bool
unfolding trim_prefix text_eq
is_authorized reader token p =
    not (text_eq (provided p) [] || not (text_eq (reader.sum (provided p)) (reader.sum token)))

abbrev pub document_limit : ℕ
document_limit = 5_242_880

-- io.ReadAll(io.LimitReader(part, limit)): an error beyond the limit is not met
unfoldable pub read_limited : ℕ → Stream → Option (List ℕ)
read_limited limit s =
    if s.fails && ltb (length s.bytes) limit then none else some (take limit s.bytes)

-- the next part, where it has the name
unfoldable pub next_part : Text → List Part → Option (Part × List Part)
unfolding text_eq
next_part name [] = none
next_part name (p ∷ ps) = if text_eq p.form_name name then some (p, ps) else none

-- errors.Is of the two errors that the handler tells apart
abbrev pub is_invalid_document : Error → Bool
is_invalid_document invalid_document = true
is_invalid_document _ = false

abbrev pub is_audio_integrity : Error → Bool
is_audio_integrity audio_integrity = true
is_audio_integrity _ = false

-- the status of what Publish returns
unfoldable pub reply_of : Outcome Error Result → Reply
reply_of (err e) =
    if is_invalid_document e
    then problem 422 document_invalid
    else if is_audio_integrity e
    then problem 422 audio_integrity_failed
    else problem 500 publish_failed
reply_of (ok r) = published_as (if r.duplicate then 200 else 201) r

module _ ⦃u : Unicode⦄ {O : Type 0} (reader : Reader) (s : Setting O) where
  abbrev pub Replied : Type 0
  Replied = Reply × (World Catalogue × O)

  -- what arrives at the publisher; a failing read of the audio is among the failures of Put
  abbrev pub incoming_of : Post → Document → Part → Incoming
  incoming_of p document audio = record {
    key = p.idempotency_key;
    document = document;
    digest = reader.audio_sum audio.body.bytes;
  }

  abbrev pub hand_over : Incoming → World Catalogue × O → Replied
  hand_over q st = (reply_of (publish s q st).0, (publish s q st).1)

  unfoldable pub take_audio :
      Post → Document → Option (Part × List Part) → World Catalogue × O → Replied
  unfolding publish reply_of
  take_audio p document none st = (problem 400 audio_required, st)
  take_audio p document (some (audio, _)) st = hand_over (incoming_of p document audio) st

  unfoldable pub take_document : Post → Option (Part × List Part) → World Catalogue × O → Replied
  unfolding read_limited next_part take_audio
  take_document p none st = (problem 400 document_required, st)
  take_document p (some (part, rest)) st = elim (read_limited document_limit part.body) [
    | none ↦ (problem 400 document_invalid, st)
    | some body ↦ elim (reader.decode_document body) [
      | none ↦ (problem 400 document_invalid, st)
      | some document ↦ take_audio p document (next_part (codes "audio") rest) st
    ]
  ]

  unfoldable pub take_parts : Post → Option (List Part) → World Catalogue × O → Replied
  unfolding next_part take_document
  take_parts p none st = (problem 400 invalid_multipart, st)
  take_parts p (some parts) st = take_document p (next_part (codes "document") parts) st

  -- bearerAuth around publish
  unfoldable pub post_publication : Text → Post → World Catalogue × O → Replied
  unfolding is_authorized take_parts
  post_publication token p st = elim (is_authorized reader token p) [
    | false ↦ (problem 401 unauthorized, st)
    | true ↦ take_parts p p.parts st
  ]
