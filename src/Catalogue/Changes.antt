-- ===== src/Catalogue/Changes.antt =====
-- GET /sync (internal/httpapi/public.go) over ListPublishEventsAfter (public.sql.go): the log of the
-- publications behind a cursor.
use el_backend.Database.Table.{any}
use el_backend.Catalogue.Contents.{data_of, read, validation_error, Response}
use el_backend.Text.{codes, text_eq, Text}
use el_backend.Database.{Fault}
use el_backend.Catalogue.Codec.{Codec}
use el_backend.Catalogue.Queries.{listed}
use el_backend.Base.{
  ◌&&◌, filter, ◌==◌, some, none, [], Option, length, ltb, take, ◌∷◌, Bool, map, List, ℕ,
}
use el_backend.Base.Int.{ltb_ℤ, pos, ℤ}
use el_backend.Catalogue.Schema.{Catalogue, PublishEvent}
use el_backend.Base.Sort.{stable_sort}
pub mod Drain

abbrev pub change_limit : ℕ
change_limit = 100

abbrev pub event_less : PublishEvent → PublishEvent → Bool
event_less a b = ltb a.sequence b.sequence

abbrev pub beyond : ℤ → PublishEvent → Bool
beyond sequence e = ltb_ℤ sequence (pos e.sequence)

-- the events of contents that are published and playable now
unfoldable pub shown : Catalogue → PublishEvent → Bool
unfolding listed text_eq
shown d e =
    text_eq e.entity_type (codes "content")
    && any (λ c. c.id == e.entity_id && listed d c) d.contents

unfoldable pub list_publish_events_after : ℤ → ℕ → Catalogue → List PublishEvent
unfolding shown stable_sort
list_publish_events_after sequence limit d =
    take limit
      (stable_sort event_less (filter (beyond sequence) (filter (shown d) d.publish_events)))

pub record Change : Type 0 where
  pub sequence : ℕ
  pub operation : Text
  pub entity : Text
  pub id : ℕ
  pub revision : Option ℕ

abbrev pub change_of : PublishEvent → Change
change_of e = record {
  sequence = e.sequence;
  operation = e.operation;
  entity = e.entity_type;
  id = e.entity_id;
  revision = e.revision;
}

pub record Changes : Type 0 where
  pub changes : List Change
  pub next_cursor : Text
  pub has_more : Bool

-- the sequence of the last row, or the one asked for where there is none
unfoldable pub next_sequence : ℤ → List PublishEvent → ℤ
next_sequence next [] = next
next_sequence next (e ∷ es) = next_sequence (pos e.sequence) es

module _ ⦃codec : Codec⦄ where
  unfoldable pub parse_sequence : Text → Option ℤ
  parse_sequence [] = some (pos 0)
  parse_sequence (c ∷ raw) = elim (codec.decode (c ∷ raw)) [
    | none ↦ none
    | some decoded ↦ codec.parse_int decoded
  ]

  abbrev pub format_sequence : ℤ → Text
  format_sequence z = codec.encode (codec.format_int z)

  abbrev pub changes_of : ℤ → List PublishEvent → Changes
  changes_of sequence rows = record {
    changes = map change_of rows;
    next_cursor = format_sequence (next_sequence sequence rows);
    has_more = length rows == change_limit;
  }

  unfoldable pub sync : Fault → Text → Catalogue → Response Changes
  unfolding parse_sequence list_publish_events_after next_sequence
  sync fault raw d = elim (parse_sequence raw) [
    | none ↦ validation_error
    | some sequence ↦
        read fault (list_publish_events_after sequence change_limit d)
          (λ rows. data_of (changes_of sequence rows))
  ]
