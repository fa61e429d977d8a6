-- ===== src/Catalogue/Lists.antt =====
-- The contents of a category and of a series, and the search
-- (internal/repository/dbgen/public.sql.go).
use el_backend.Database.Table.{any}
use el_backend.Catalogue.Released.{released_less}
use el_backend.Base.Int.{ltb_ℤ, ℤ}
use el_backend.Text.{codes, Text, text_eq}
use el_backend.Catalogue.Schema.{ContentSeries, ContentCategory, Catalogue, Content}
use el_backend.Base.{
  map, none, ◌∷◌, ◌&&◌, true, some, ◌==◌, false, not, if◌then◌else◌, take, filter, ◌++◌, List, [],
  ℕ, ◌||◌, ltb, Bool, Option,
}
use el_backend.Catalogue.Queries.{Row, listed, join_source}
use el_backend.Base.Sort.{stable_sort}

-- published_at DESC NULLS LAST, id DESC
abbrev pub newest_less : Row → Row → Bool
newest_less a b =
    released_less a.content.published_at a.content.id b.content.published_at b.content.id

abbrev pub listed_with_id : Catalogue → ℕ → List Content
listed_with_id d i = filter (λ c. c.id == i && listed d c) d.contents

-- content_categories cc JOIN categories cat … JOIN contents c …
unfoldable pub category_links : Catalogue → Text → List ContentCategory → List Content
unfolding listed text_eq
category_links d slug [] = []
category_links d slug (cc ∷ ccs) =
    (if any (λ cat. cat.id == cc.category_id && text_eq cat.slug slug) d.categories
      then listed_with_id d cc.content_id
      else [])
    ++ category_links d slug ccs

unfoldable pub list_category_contents : Text → ℕ → Catalogue → List Row
unfolding category_links join_source stable_sort
list_category_contents slug limit d =
    take limit
      (stable_sort newest_less (join_source d (category_links d slug d.content_categories)))

pub record PlacedRow : Type 0 where
  pub row : Row
  pub position : ℤ

-- published_at, with the nulls last, and then the id
abbrev pub oldest_less : Option ℕ → ℕ → Option ℕ → ℕ → Bool
oldest_less none i none j = ltb i j
oldest_less none i (some t) j = false
oldest_less (some s) i none j = true
oldest_less (some s) i (some t) j = ltb s t || (s == t && ltb i j)

-- ORDER BY cs.position, c.published_at, c.id
abbrev pub placed_less : PlacedRow → PlacedRow → Bool
placed_less a b =
    ltb_ℤ a.position b.position
    || (not (ltb_ℤ b.position a.position)
        && oldest_less a.row.content.published_at a.row.content.id b.row.content.published_at
            b.row.content.id)

unfoldable pub series_links : Catalogue → ℕ → List ContentSeries → List PlacedRow
unfolding listed join_source
series_links d i [] = []
series_links d i (cs ∷ css) =
    (if cs.series_id == i
      then map (λ r. record { row = r; position = cs.position })
          (join_source d (listed_with_id d cs.content_id))
      else [])
    ++ series_links d i css

unfoldable pub list_series_contents : ℕ → Catalogue → List PlacedRow
unfolding series_links stable_sort
list_series_contents i d = stable_sort placed_less (series_links d i d.content_series)

-- PostgreSQL's text search over a content's title, summary, blocks and metadata, with the query:
-- whether it matches, and its rank; lower, and LIKE with a pattern
pub record TextSearch : Type 0 where
  pub search_matches : Content → Text → Bool
  pub search_rank : Content → Text → ℕ
  pub pg_lower : Text → Text
  pub like : Text → Text → Bool

module _ ⦃s : TextSearch⦄ where
  -- lower(value) LIKE '%' || lower(query) || '%'
  abbrev pub occurs_in : Text → Text → Bool
  occurs_in query value = s.like (s.pg_lower value) (codes "%" ++ s.pg_lower query ++ codes "%")

  abbrev pub or_empty : Option Text → Text
  or_empty none = []
  or_empty (some t) = t

  unfoldable pub found_by : Text → Content → Bool
  found_by query c =
      s.search_matches c query
      || occurs_in query c.title
      || occurs_in query (or_empty c.summary)
      || occurs_in query c.body_blocks
      || occurs_in query c.metadata

  -- how well the title fits
  unfoldable pub title_fit : Text → Text → ℕ
  unfolding text_eq
  title_fit query title =
      if text_eq (s.pg_lower title) (s.pg_lower query)
      then 4
      else if s.like (s.pg_lower title) (s.pg_lower query ++ codes "%")
      then 3
      else if occurs_in query title
      then 2
      else 1

  -- published_at DESC NULLS LAST, and nothing else
  abbrev pub newer_time : Option ℕ → Option ℕ → Bool
  newer_time none t = false
  newer_time (some s) none = true
  newer_time (some s) (some t) = ltb t s

  unfoldable pub found_less : Text → Row → Row → Bool
  unfolding title_fit
  found_less query a b =
      let fit = title_fit query a.content.title in
      let other_fit = title_fit query b.content.title in
      let rank = s.search_rank a.content query in
      let other_rank = s.search_rank b.content query in
      ltb other_fit fit
      || (fit == other_fit
          && (ltb other_rank rank
              || (rank == other_rank && newer_time a.content.published_at b.content.published_at)))

  unfoldable pub search_published_contents : Text → ℕ → Catalogue → List Row
  unfolding listed found_by join_source found_less stable_sort
  search_published_contents query limit d = take limit (
      stable_sort (found_less query)
        (join_source d (filter (λ c. listed d c && found_by query c) d.contents)))
