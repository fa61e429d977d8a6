-- ===== src/Catalogue/Contents/Walk.antt =====
-- A client of GET /contents (internal/httpapi/public.go) that follows the cursor to its end.
use el_backend.Catalogue.Contents.Cursors.{parse-format_cursor}
use el_backend.Catalogue.Contents.Rows.{published_rows-Rising, IsReleased}
use el_backend.Base.Paging.{length-drop-lt, take_short, page_rest, last_key}
use el_backend.Database.{works}
use el_backend.Catalogue.Released.{
  cursor_of, row_trans, list-published_rows, published_rows, row_cursor, before_cursor, Cursor,
  Released,
}
use el_backend.Catalogue.Contents.{
  format_cursor, page_of, page_limit, item_of, last_cursor, parse_cursor, data_of, Item, contents,
}
use el_backend.Text.{Text, Unicode}
use el_backend.Catalogue.Queries.{Row}
use el_backend.Catalogue.Schema.{Catalogue}
use el_backend.Catalogue.Codec.{Json, Codec}
use el_backend.Base.{
  map-append, take-append-drop, sym, drop, ◌∙◌, All-take, ==_iff, take, arith, ◌<◌, ap, length,
  refl, ◌≡◌, map, ◌==◌, zero, ◌++◌, some, inr, suc, All-filter, [], Option, inl, none, Bool-cases,
  ℕ, All, ◌≢◌, ◌∷◌, filter, List,
}

module _ ⦃codec : Codec⦄ ⦃u : Unicode⦄ (json : Json) where
  -- the client's loop: ask for a page, and go on while there is a cursor
  unfoldable pub walk : ℕ → Text → Catalogue → List Item
  unfolding contents
  walk zero raw d = []
  walk (suc fuel) raw d = elim (contents json works raw d) [
    | data_of page ↦ elim page.next_cursor [
      | [] ↦ page.items
      | c ∷ s ↦ page.items ++ walk fuel (c ∷ s) d
    ]
    | other ↦ []
  ]

released_time : (o : Option ℕ) → o ≢ none → (t : ℕ) × (o ≡ some t)
released_time none n = absurd (n refl)
released_time (some t) n = (t, refl)

module _ ⦃codec : Codec⦄ where
  abbrev page_key : Cursor → List Row → Cursor
  page_key = last_key row_cursor before_cursor

  -- the cursor sent with a page that has a row, and the place in the rows that it stands for
  record PageEnd (c : Cursor) (rows : List Row) : Type 0 where
    time : ℕ
    id : ℕ
    key : page_key c rows ≡ some (time, id)
    sent : last_cursor [] rows ≡ format_cursor (some time) id

  last_end :
      (next : Text) (c : Cursor) (r : Row) (rows : List Row)
      → All Released (r ∷ rows)
      → (t : ℕ) × (i : ℕ) × (page_key c (r ∷ rows) ≡ some (t, i))
        × (last_cursor next (r ∷ rows) ≡ format_cursor (some t) i)
  unfolding last_key last_cursor
  last_end next c r [] a =
      let (t, e) = released_time r.content.released_at a.0 in
      (
        t,
        r.content.id,
        ap (λ o. cursor_of o r.content.id) e,
        ap (λ o. format_cursor o r.content.id) e,
      )
  last_end next c r (s ∷ rows) a =
      last_end (format_cursor r.content.released_at r.content.id) (row_cursor r) s rows a.1

  end_of :
      (c : Cursor) (rows : List Row) → All Released rows → length rows ≡ page_limit → PageEnd c rows
  end_of c [] a h = absurd (omega arith)
  end_of c (r ∷ rows) a h =
      let (t, i, k, s) = last_end [] c r rows a in record { time = t; id = i; key = k; sent = s }

  module _ ⦃u : Unicode⦄ (json : Json) where
    contents-page :
        (raw : Text) (c : Cursor) (d : Catalogue)
        → parse_cursor raw ≡ some c
        → contents json works raw d
          ≡ data_of (page_of json (take page_limit (filter (before_cursor c) (published_rows d))))
    unfolding contents
    contents-page raw c d h = rw (h, contents, list-published_rows c page_limit d) refl

    walk-more :
        (fuel : ℕ) (raw : Text) (d : Catalogue) (items : List Item) (next : Text)
        → contents json works raw d ≡ data_of (record { items = items; next_cursor = next })
        → next ≢ []
        → walk json (suc fuel) raw d ≡ items ++ walk json fuel next d
    unfolding walk
    walk-more fuel raw d items [] h n = absurd (n refl)
    walk-more fuel raw d items (c ∷ s) h n = rw (h, walk) refl

    walk-last :
        (fuel : ℕ) (raw : Text) (d : Catalogue) (items : List Item)
        → contents json works raw d ≡ data_of (record { items = items; next_cursor = [] })
        → walk json (suc fuel) raw d ≡ items
    unfolding walk
    walk-last fuel raw d items h = rw (h, walk) refl

    module _ (d : Catalogue) (v : IsReleased d) where
      abbrev behind : Cursor → List Row
      behind c = filter (before_cursor c) (published_rows d)

      behind_rest :
          (c : Cursor)
          → behind (page_key c (take page_limit (behind c))) ≡ drop page_limit (behind c)
      behind_rest c =
          page_rest row_cursor before_cursor row_trans c page_limit (published_rows d)
            (published_rows-Rising d v).0

      page_end :
          (c : Cursor)
          → length (take page_limit (behind c)) ≡ page_limit
          → PageEnd c (take page_limit (behind c))
      page_end c full =
          end_of c _
            (All-take _ page_limit (behind c)
              (All-filter _ (before_cursor c) (published_rows d) (published_rows-Rising d v).1))
            full

      -- from any cursor on
      walk_from :
          (fuel : ℕ) (raw : Text) (c : Cursor)
          → parse_cursor raw ≡ some c
          → length (behind c) < fuel
          → walk json fuel raw d ≡ map (item_of json) (behind c)
      walk_from zero raw c p h = absurd (omega arith)
      walk_from (suc fuel) raw c p h =
          elim (Bool-cases (length (take page_limit (behind c)) == page_limit)) [
            | inl e ↦
                let full = (==_iff _ _).0 e in
                let n = page_end c full in
                let rest = ap behind (sym n.key) ∙ behind_rest c in
                let trip = parse-format_cursor n.time n.id in
                let small = length-drop-lt page_limit fuel (behind c) (omega arith) full h in
                walk-more fuel raw d _ _ (contents-page raw c d p ∙ rw (e, n.sent) refl) trip.1
                ∙ ap (◌++◌ (map (item_of json) (take page_limit (behind c)))) (
                    walk_from fuel (format_cursor (some n.time) n.id) (some (n.time, n.id)) trip.0
                      (rw rest small)
                    ∙ ap (map (item_of json)) rest)
                ∙ sym (
                    map-append (item_of json) (take page_limit (behind c))
                      (drop page_limit (behind c)))
                ∙ ap (map (item_of json)) (take-append-drop page_limit (behind c))
            | inr e ↦
                let whole =
                  take_short page_limit (behind c) (λ full. cc (e, (==_iff _ _).1 full)) in
                walk-last fuel raw d _ (contents-page raw c d p ∙ rw e refl)
                ∙ ap (map (item_of json)) whole
          ]

      filter-none : (rows : List Row) → filter (before_cursor none) rows ≡ rows
      filter-none [] = refl
      filter-none (r ∷ rows) = ap (◌∷◌ r) (filter-none rows)

      -- A client that starts without a cursor and follows the cursors receives every published and
      -- playable content once, from the latest release on, and comes to an end, where no id stands
      -- twice and every listed content has a release time; one request more than there are contents
      -- is enough.
      pub walk-published_rows :
          (fuel : ℕ)
          → length (published_rows d) < fuel
          → walk json fuel [] d ≡ map (item_of json) (published_rows d)
      unfolding parse_cursor
      walk-published_rows fuel h =
          walk_from fuel [] none refl (rw (filter-none (published_rows d)) h)
          ∙ ap (map (item_of json)) (filter-none (published_rows d))
