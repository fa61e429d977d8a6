-- ===== src/Catalogue/Contents/Rows.antt =====
-- The rows of the published contents: one for each content with its source, in an order that pages can
-- be cut from (internal/repository/dbgen/public.sql.go).
use el_backend.Base.Sort.{All-sort}
use el_backend.Base.Paging.{Rising}
use el_backend.Base.{
  ◌==◌, find?, All-append, [], some, ◌∷◌, ◌++◌, filter, none, All, ◌≢◌, Option, List,
}
use el_backend.Catalogue.Released.{
  row_less, sort_rows-Rising, Released, before_cursor, OtherId, row_cursor, published_rows,
}
use el_backend.Catalogue.Queries.{listed, Row, join_source, with_source}
use el_backend.Base.Sort.Select.{Pairwise-filter, Pairwise}
use el_backend.Catalogue.Schema.{SourceItem, Content, Catalogue}

-- the contents that are listed have been released, and no id stands twice in the table
pub record IsReleased (d : Catalogue) : Type 0 where
  pub ids : Pairwise (λ (a b : Content). a.id ≢ b.id) d.contents
  pub released : All (λ (c : Content). c.released_at ≢ none) (filter (listed d) d.contents)

module _ (d : Catalogue) where
  All-join :
      (P : Content → Type 0) (cs : List Content)
      → All P cs
      → All (λ (r : Row). P r.content) (join_source d cs)
  unfolding join_source
  All-join P [] h = tt
  All-join P (c ∷ cs) h =
      All-append _ (with_source (find? (λ s. s.id == c.source_item_id) d.source_items) c) _
        (one (find? (λ s. s.id == c.source_item_id) d.source_items)) (All-join P cs h.1)
    where
      one : (o : Option SourceItem) → All (λ (r : Row). P r.content) (with_source o c)
      one none = tt
      one (some s) = (h.0, tt)

  one-then :
      (o : Option SourceItem) (c : Content) (rows : List Row)
      → All (λ (r : Row). c.id ≢ r.content.id) rows
      → Pairwise OtherId rows
      → Pairwise OtherId (with_source o c ++ rows)
  unfolding with_source
  one-then none c rows a p = p
  one-then (some s) c rows a p = (a, p)

  Pairwise-join :
      (cs : List Content)
      → Pairwise (λ (a b : Content). a.id ≢ b.id) cs
      → Pairwise OtherId (join_source d cs)
  unfolding join_source
  Pairwise-join [] h = tt
  Pairwise-join (c ∷ cs) h =
      one-then _ c (join_source d cs) (All-join (λ (b : Content). c.id ≢ b.id) cs h.0)
        (Pairwise-join cs h.1)

  pub published_rows-Rising :
      IsReleased d
      → Rising row_cursor before_cursor (published_rows d) × All Released (published_rows d)
  unfolding published_rows
  published_rows-Rising v =
      let cs = filter (listed d) d.contents in
      let released = All-join (λ (c : Content). c.released_at ≢ none) cs v.released in
      let apart = Pairwise-join cs (Pairwise-filter _ (listed d) d.contents v.ids) in
      (
        sort_rows-Rising (join_source d cs) apart released,
        All-sort row_less Released (join_source d cs) released,
      )
