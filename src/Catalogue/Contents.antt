-- ===== src/Catalogue/Contents.antt =====
-- GET /contents and GET /home (internal/httpapi/public.go): the pages of the published contents, with
-- a cursor that the client sends back.
use el_backend.Catalogue.Goals.{content_learning_goals}
use el_backend.Base.Int.{ℤ}
use el_backend.Catalogue.Released.{list_published_contents, Cursor}
use el_backend.Catalogue.Queries.{Row}
use el_backend.Catalogue.Schema.{Catalogue, ContentType}
use el_backend.Catalogue.Codec.{bar, Json, Codec}
use el_backend.Text.{Unicode, Text}
use el_backend.Database.{unheard, lost, works, Fault}
use el_backend.Base.{
  false, length, true, if◌then◌else◌, ◌++◌, none, map, ◌==◌, some, Option, [], ◌∷◌, ℕ, List,
}
pub mod Cursors
pub mod Rows
pub mod Walk

-- the item that the lists show
pub record Item : Type 0 where
  pub id : ℕ
  pub content_type : ContentType
  pub title : Text
  pub summary : Option Text
  pub level : Option Text
  pub published_at : Option Text
  pub released_at : Option Text
  pub duration_seconds : Option ℤ
  pub learning_goals : List Text
  pub revision : ℕ

-- the answer to a request for `A`, with the code of the error otherwise
pub data Response (A : Type 0) : Type 0 where
  data_of : A → Response A
  validation_error internal_error content_not_found media_unavailable : Response A

-- how a query that only reads ends
abbrev pub read : {A B : Type 0} → Fault → A → (A → Response B) → Response B
read works a k = k a
read lost a k = internal_error
read unheard a k = internal_error

-- strings.Split(s, "|")
unfoldable pub split_bar_from : Text → Text → List Text
split_bar_from part [] = part ∷ []
split_bar_from part (c ∷ s) = elim (c == bar) [
  | true ↦ part ∷ split_bar_from [] s
  | false ↦ split_bar_from (part ++ c ∷ []) s
]

unfoldable pub split_bar : Text → List Text
unfolding split_bar_from
split_bar s = split_bar_from [] s

abbrev pub page_limit : ℕ
page_limit = 20

pub record Page : Type 0 where
  pub items : List Item
  pub next_cursor : Text

module _ ⦃codec : Codec⦄ where
  abbrev pub nullable_time : Option ℕ → Option Text
  nullable_time none = none
  nullable_time (some t) = some (codec.format_seconds t)

  -- the cursor of a time and an id, and what the handler reads from the parameter
  abbrev pub pair_of : Option ℕ → Option ℕ → Option Cursor
  pair_of none i = none
  pair_of (some t) none = none
  pair_of (some t) (some i) = some (some (t, i))

  abbrev pub parse_parts : List Text → Option Cursor
  parse_parts (a ∷ b ∷ []) = pair_of (codec.parse_time a) (codec.parse_uuid b)
  parse_parts _ = none

  unfoldable pub parse_cursor : Text → Option Cursor
  unfolding split_bar
  parse_cursor [] = some none
  parse_cursor (c ∷ raw) = elim (codec.decode (c ∷ raw)) [
    | none ↦ none
    | some decoded ↦ parse_parts (split_bar decoded)
  ]

  unfoldable pub format_cursor : Option ℕ → ℕ → Text
  format_cursor none i = []
  format_cursor (some t) i = codec.encode (codec.format_nano t ++ bar ∷ codec.uuid_string i)

  -- the cursor of the last row
  unfoldable pub last_cursor : Text → List Row → Text
  unfolding format_cursor
  last_cursor next [] = next
  last_cursor next (r ∷ rs) = last_cursor (format_cursor r.content.released_at r.content.id) rs

  module _ ⦃u : Unicode⦄ (json : Json) where
    unfoldable pub item_of : Row → Item
    unfolding content_learning_goals
    item_of r =
        let c = r.content in
        record {
          id = c.id;
          content_type = c.content_type;
          title = c.title;
          summary = c.summary;
          level = c.level;
          published_at = nullable_time c.published_at;
          released_at = nullable_time c.released_at;
          duration_seconds = c.duration_seconds;
          learning_goals = content_learning_goals json c.metadata;
          revision = c.revision;
        }

    abbrev pub page_of : List Row → Page
    page_of rows = record {
      items = map item_of rows;
      next_cursor = if length rows == page_limit then last_cursor [] rows else [];
    }

    unfoldable pub contents : Fault → Text → Catalogue → Response Page
    unfolding parse_cursor list_published_contents item_of last_cursor
    contents fault raw d = elim (parse_cursor raw) [
      | none ↦ validation_error
      | some cursor ↦
          read fault (list_published_contents cursor page_limit d) (λ rows. data_of (page_of rows))
    ]

    -- the one section of the home page
    unfoldable pub home : Fault → Catalogue → Response (List Item)
    unfolding list_published_contents item_of
    home fault d =
        read fault (list_published_contents none 20 d) (λ rows. data_of (map item_of rows))
