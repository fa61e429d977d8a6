-- ===== src/Catalogue/Released.antt =====
-- ListPublishedContents (internal/repository/dbgen/public.sql.go): the published contents behind a
-- cursor, from the latest release on; and that the order is one that pages can be cut from.
use el_backend.Base.Paging.{Rising}
use el_backend.Base.Sort.Select.{sort-Rising, filter-sort, Pairwise}
use el_backend.Catalogue.Schema.{Catalogue}
use el_backend.Base.Sort.{stable_sort}
use el_backend.Base.{
  All, sym, ap, ◌∙◌, refl, ◌&&◌, ◌==◌, ◌||◌, filter, ltb, take, arith, none, List, some, false,
  true, ◌≡◌, ◌≢◌, ℕ, Bool, Option,
}
use el_backend.Catalogue.Queries.{join_source, listed, Row}

abbrev pub Cursor : Type 0
Cursor = Option (ℕ × ℕ)

-- (c.released_at, c.id) < ($1, $2): unknown, and so not selected, where released_at is null
abbrev pub before_cursor : Cursor → Row → Bool
before_cursor none r = true
before_cursor (some (t, i)) r = elim r.content.released_at [
  | none ↦ false
  | some s ↦ ltb s t || (s == t && ltb r.content.id i)
]

-- released_at DESC NULLS LAST, id DESC
abbrev pub released_less : Option ℕ → ℕ → Option ℕ → ℕ → Bool
released_less none i none j = ltb j i
released_less none i (some t) j = false
released_less (some s) i none j = true
released_less (some s) i (some t) j = ltb t s || (s == t && ltb j i)

abbrev pub row_less : Row → Row → Bool
row_less a b = released_less a.content.released_at a.content.id b.content.released_at b.content.id

unfoldable pub list_published_contents : Cursor → ℕ → Catalogue → List Row
unfolding listed join_source stable_sort
list_published_contents cursor limit d = take limit (
    stable_sort row_less
      (filter (before_cursor cursor) (join_source d (filter (listed d) d.contents))))

less_asym :
    (s : Option ℕ) (i : ℕ) (t : Option ℕ) (j : ℕ)
    → released_less s i t j ≡ true
    → released_less t j s i ≡ false
less_asym none i none j h = ground arith
less_asym none i (some t) j h = cc
less_asym (some s) i none j h = refl
less_asym (some s) i (some t) j h = ground arith

less_trans :
    (s : Option ℕ) (i : ℕ) (t : Option ℕ) (j : ℕ) (u : Option ℕ) (k : ℕ)
    → released_less s i t j ≡ true
    → released_less t j u k ≡ true
    → released_less s i u k ≡ true
less_trans none i none j none k h g = ground arith
less_trans none i none j (some u) k h g = g
less_trans none i (some t) j u k h g = cc
less_trans (some s) i none j none k h g = refl
less_trans (some s) i none j (some u) k h g = cc
less_trans (some s) i (some t) j none k h g = refl
less_trans (some s) i (some t) j (some u) k h g = ground arith

less_total :
    (s : Option ℕ) (i : ℕ) (t : Option ℕ) (j : ℕ)
    → i ≢ j
    → released_less t j s i ≡ false
    → released_less s i t j ≡ true
less_total none i none j n h = ground arith
less_total none i (some t) j n h = cc
less_total (some s) i none j n h = refl
less_total (some s) i (some t) j n h = ground arith

less_negtrans :
    (s : Option ℕ) (i : ℕ) (t : Option ℕ) (j : ℕ) (u : Option ℕ) (k : ℕ)
    → released_less t j s i ≡ false
    → released_less u k t j ≡ false
    → released_less u k s i ≡ false
less_negtrans none i none j none k h g = ground arith
less_negtrans none i none j (some u) k h g = g
less_negtrans none i (some t) j u k h g = cc
less_negtrans (some s) i none j none k h g = refl
less_negtrans (some s) i none j (some u) k h g = cc
less_negtrans (some s) i (some t) j none k h g = refl
less_negtrans (some s) i (some t) j (some u) k h g = ground arith

-- the rows of the published contents in the order of the lists
unfoldable pub published_rows : Catalogue → List Row
unfolding listed join_source stable_sort
published_rows d = stable_sort row_less (join_source d (filter (listed d) d.contents))

row_asym : (x y : Row) → row_less x y ≡ true → row_less y x ≡ false
row_asym x y = less_asym x.content.released_at x.content.id y.content.released_at y.content.id

pub list-published_rows :
    (c : Cursor) (n : ℕ) (d : Catalogue)
    → list_published_contents c n d ≡ take n (filter (before_cursor c) (published_rows d))
unfolding list_published_contents published_rows
list-published_rows c n d = ap (take n) (
    filter-sort row_less row_asym
      (λ x y z.
        less_negtrans x.content.released_at x.content.id y.content.released_at y.content.id
          z.content.released_at z.content.id)
      (before_cursor c) (join_source d (filter (listed d) d.contents)))

-- the cursor that a row is the last one before
abbrev pub cursor_of : Option ℕ → ℕ → Cursor
cursor_of none i = some (0, 0)
cursor_of (some t) i = some (t, i)

abbrev pub row_cursor : Row → Cursor
row_cursor r = cursor_of r.content.released_at r.content.id

abbrev pub Released : Row → Type 0
Released r = r.content.released_at ≢ none

abbrev pub OtherId : Row → Row → Type 0
OtherId a b = a.content.id ≢ b.content.id

-- `before_cursor` on the values that it reads
abbrev before : Cursor → Option ℕ → ℕ → Bool
before none s j = true
before (some (t, i)) none j = false
before (some (t, i)) (some s) j = ltb s t || (s == t && ltb j i)

before_lem :
    (c : Cursor) (r : Row) → before_cursor c r ≡ before c r.content.released_at r.content.id
before_lem none r = refl
before_lem (some (t, i)) r = split r.content.released_at
  where
    split :
        (s : Option ℕ)
        → elim s [ none ↦ false | some s ↦ ltb s t || (s == t && ltb r.content.id i) ]
          ≡ before (some (t, i)) s r.content.id
    split none = refl
    split (some s) = refl

before_agree :
    (s : Option ℕ) (i : ℕ) (t : Option ℕ) (j : ℕ)
    → s ≢ none
    → t ≢ none
    → before (cursor_of s i) t j ≡ released_less s i t j
before_agree none i t j n m = absurd (n refl)
before_agree (some s) i none j n m = absurd (m refl)
before_agree (some s) i (some t) j n m = ground arith

before_trans :
    (c : Cursor) (s : Option ℕ) (i : ℕ) (t : Option ℕ) (j : ℕ)
    → before c s i ≡ true
    → before (cursor_of s i) t j ≡ true
    → before c t j ≡ true
before_trans none s i t j h g = refl
before_trans (some (u, k)) none i t j h g = cc
before_trans (some (u, k)) (some s) i none j h g = cc
before_trans (some (u, k)) (some s) i (some t) j h g = ground arith

pub row_trans :
    (c : Cursor) (x y : Row)
    → before_cursor c x ≡ true
    → before_cursor (row_cursor x) y ≡ true
    → before_cursor c y ≡ true
row_trans c x y h g =
    before_lem c y
    ∙ before_trans c x.content.released_at x.content.id y.content.released_at y.content.id
        (sym (before_lem c x) ∙ h) (sym (before_lem (row_cursor x) y) ∙ g)

pub sort_rows-Rising :
    (rows : List Row)
    → Pairwise OtherId rows
    → All Released rows
    → Rising row_cursor before_cursor (stable_sort row_less rows)
sort_rows-Rising =
    sort-Rising row_cursor before_cursor row_less Released OtherId
      (λ x y p q.
        before_lem (row_cursor x) y
        ∙ before_agree x.content.released_at x.content.id y.content.released_at y.content.id p q)
      row_asym
      (λ x y z.
        less_trans x.content.released_at x.content.id y.content.released_at y.content.id
          z.content.released_at z.content.id)
      (λ x y n. less_total x.content.released_at x.content.id y.content.released_at y.content.id n)
