-- ===== src/Catalogue/Queries.antt =====
-- The public queries for one row and for lists of categories, series and assets
-- (internal/repository/dbgen/public.sql.go). A result is what the statement selects from the tables.
use el_backend.Database.{no_rows, Error}
use el_backend.Database.Table.{any}
use el_backend.Base.Int.{ℤ, ltb_ℤ}
use el_backend.Text.{codes, Text, text_eq}
use el_backend.Catalogue.Codec.{Collation}
use el_backend.Catalogue.Schema.{
  is_stream_proxy, is_public_domain, is_managed_cache, Category, SourceItem, Series, is_published,
  Asset, Content, ContentAsset, Catalogue,
}
use el_backend.Base.{
  is_some, ok, ◌++◌, none, ◌==◌, err, find?, not, filter, take, some, if◌then◌else◌, ℕ, Outcome,
  ltb, ◌∷◌, [], Bool, List, Option, ◌&&◌, ◌||◌,
}
use el_backend.Base.Sort.{stable_sort}

-- what makes an asset count as playable in every public query
abbrev pub is_audio : Asset → Bool
is_audio a =
    text_eq a.kind (codes "audio")
    && is_managed_cache a.delivery_policy
    && text_eq a.availability (codes "available")

-- EXISTS (SELECT 1 FROM content_assets ca JOIN assets a … WHERE ca.content_id = …)
unfoldable pub playable : Catalogue → ℕ → Bool
unfolding text_eq
playable d c =
    any (λ ca. ca.content_id == c && any (λ a. a.id == ca.asset_id && is_audio a) d.assets)
      d.content_assets

unfoldable pub listed : Catalogue → Content → Bool
unfolding playable
listed d c = is_published c.status && playable d c.id

-- contents c JOIN source_items s ON s.id = c.source_item_id: the columns that the queries select
pub record Row : Type 0 where
  pub content : Content
  pub canonical_url : Text

unfoldable pub with_source : Option SourceItem → Content → List Row
with_source none c = []
with_source (some s) c = record { content = c; canonical_url = s.canonical_url } ∷ []

unfoldable pub join_source : Catalogue → List Content → List Row
unfolding with_source
join_source d [] = []
join_source d (c ∷ cs) =
    with_source (find? (λ s. s.id == c.source_item_id) d.source_items) c ++ join_source d cs

-- a query for one row, which fails where there is none
abbrev pub first_row : {A : Type 0} → List A → Outcome Error A
first_row [] = err no_rows
first_row (x ∷ xs) = ok x

unfoldable pub get_published_content : Catalogue → ℕ → Outcome Error Row
unfolding listed join_source
get_published_content d i =
    first_row (join_source d (filter (λ c. c.id == i && listed d c) d.contents))

unfoldable pub deliverable : Asset → Bool
unfolding text_eq
deliverable a =
    text_eq a.availability (codes "available")
    && ((is_public_domain a.rights_status && is_stream_proxy a.delivery_policy)
        || (is_managed_cache a.delivery_policy && is_some a.object_key))

unfoldable pub get_deliverable_asset : Catalogue → ℕ → Outcome Error Asset
unfolding deliverable
get_deliverable_asset d i = first_row (filter (λ a. a.id == i && deliverable a) d.assets)

-- EXISTS over the contents of a series or of a category
abbrev pub shows : Catalogue → ℕ → Bool
shows d i = any (λ c. c.id == i && listed d c) d.contents

unfoldable pub open_series : Catalogue → Series → Bool
unfolding listed text_eq
open_series d s =
    text_eq s.status (codes "active")
    && any (λ cs. cs.series_id == s.id && shows d cs.content_id) d.content_series

unfoldable pub get_series : Catalogue → ℕ → Outcome Error Series
unfolding open_series
get_series d i = first_row (filter (λ s. s.id == i && open_series d s) d.series)

unfoldable pub open_category : Catalogue → Category → Bool
unfolding listed text_eq
open_category d c =
    text_eq c.status (codes "active")
    && any (λ cc. cc.category_id == c.id && shows d cc.content_id) d.content_categories

module _ ⦃collation : Collation⦄ where
  -- ORDER BY cat.sort_order, cat.name
  abbrev pub category_less : Category → Category → Bool
  category_less a b =
      ltb_ℤ a.sort_order b.sort_order
      || (not (ltb_ℤ b.sort_order a.sort_order) && collation.text_less a.name b.name)

  unfoldable pub list_categories : Catalogue → List Category
  unfolding open_category stable_sort
  list_categories d = stable_sort category_less (filter (open_category d) d.categories)

  -- ORDER BY s.title LIMIT $1
  unfoldable pub list_series : ℕ → Catalogue → List Series
  unfolding open_series stable_sort
  list_series limit d =
      take limit
        (stable_sort (λ a b. collation.text_less a.title b.title) (filter (open_series d) d.series))

pub record AssetRow : Type 0 where
  pub asset : Asset
  pub role : Text
  pub position : ℤ

unfoldable pub with_role : ContentAsset → Option Asset → List AssetRow
with_role ca none = []
with_role ca (some a) = record { asset = a; role = ca.role; position = ca.position } ∷ []

unfoldable pub join_assets : Catalogue → ℕ → List ContentAsset → List AssetRow
unfolding with_role
join_assets d i [] = []
join_assets d i (ca ∷ cas) =
    (if ca.content_id == i then with_role ca (find? (λ a. a.id == ca.asset_id) d.assets) else [])
    ++ join_assets d i cas

-- ORDER BY ca.position, a.id
abbrev pub asset_less : AssetRow → AssetRow → Bool
asset_less a b =
    ltb_ℤ a.position b.position || (not (ltb_ℤ b.position a.position) && ltb a.asset.id b.asset.id)

unfoldable pub list_content_assets : Catalogue → ℕ → List AssetRow
unfolding join_assets stable_sort
list_content_assets d i = stable_sort asset_less (join_assets d i d.content_assets)
