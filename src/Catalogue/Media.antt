-- ===== src/Catalogue/Media.antt =====
-- GET /media/{id}: media, proxyMedia, allowedMediaHost and the redirect rule of NewMediaClient
-- (internal/httpapi/public.go). url.Parse and the answers of the hosts are arguments.
use el_backend.Text.Suffix.{has_suffix}
use el_backend.Database.{works, Error, Fault}
use el_backend.Base.{
  zero, ◌+◌, ◌-◌, drop, suc, ok, false, ◌∷◌, ◌&&◌, ◌||◌, length, some, not, leb, [], true, Outcome,
  List, Option, ℕ, none, Bool,
}
use el_backend.Catalogue.Schema.{is_managed_cache, Catalogue, Asset}
use el_backend.Catalogue.Queries.{get_deliverable_asset}
use el_backend.Text.{codes, to_lower, Text, Unicode, text_eq}
pub mod Safe

pub record Url : Type 0 where
  pub scheme : Text
  pub host : Text
  pub text : Text

-- the outside of the handler: url.Parse, where a host redirects a request, whether a request fails,
-- and Store.Open with the content type that the store has for an object
pub record Outside : Type 0 where
  pub parse_url : Text → Option Url
  pub redirect_of : Url → Option Url
  pub fails : Url → Bool
  pub open_object : Text → Option Text

-- the requests to other hosts, and how the handler ends
pub data MediaAnswer : Type 0 where
  bad_id no_asset store_failed : MediaAnswer
  from_store : Text → Text → MediaAnswer
  not_allowed : MediaAnswer
  upstream_failed proxied : List Url → MediaAnswer

module _ ⦃u : Unicode⦄ where
  unfoldable pub allowed_media_host : Text → Bool
  unfolding to_lower text_eq has_suffix
  allowed_media_host host =
      let h = to_lower host in
      text_eq h (codes "learningenglish.voanews.com")
      || text_eq h (codes "gdb.voanews.com")
      || text_eq h (codes "voa-audio.voanews.eu")
      || has_suffix h (codes ".akamaized.net")

  abbrev pub allowed_url : Url → Bool
  allowed_url url = text_eq url.scheme (codes "https") && allowed_media_host url.host

  -- CheckRedirect, with the number of requests made so far
  unfoldable pub check_redirect : ℕ → Url → Bool
  unfolding text_eq allowed_media_host
  check_redirect via url = not (leb 5 via) && allowed_url url

  -- client.Do: the requests that are made, and whether the last one is answered
  unfoldable pub do_request : Outside → ℕ → ℕ → Url → List Url × Bool
  unfolding check_redirect
  do_request out zero via url = ([], false)
  do_request out (suc fuel) via url = elim (out.fails url) [
    | true ↦ (url ∷ [], false)
    | false ↦ elim (out.redirect_of url) [
      | none ↦ (url ∷ [], true)
      | some next ↦ elim (check_redirect (via + 1) next) [
        | false ↦ (url ∷ [], false)
        | true ↦ let (urls, done) = do_request out fuel (via + 1) next in (url ∷ urls, done)
      ]
    ]
  ]

  abbrev pub answer_of : List Url × Bool → MediaAnswer
  answer_of (urls, true) = proxied urls
  answer_of (urls, false) = upstream_failed urls

  unfoldable pub proxy_media : Outside → Text → MediaAnswer
  unfolding text_eq allowed_media_host do_request
  proxy_media out source = elim (out.parse_url source) [
    | none ↦ not_allowed
    | some url ↦ elim (allowed_url url) [
      | false ↦ not_allowed
      | true ↦ answer_of (do_request out 6 0 url)
    ]
  ]

  -- the type of the asset, of the object, or audio/mpeg
  abbrev pub content_type_of : Option Text → Text → Text
  content_type_of (some t) stored = t
  content_type_of none [] = codes "audio/mpeg"
  content_type_of none (c ∷ s) = c ∷ s

  unfoldable pub open_stored : Outside → Asset → Text → MediaAnswer
  open_stored out asset key = elim (out.open_object key) [
    | none ↦ store_failed
    | some stored ↦ from_store key (content_type_of asset.mime_type stored)
  ]

  unfoldable pub serve_asset : Outside → Bool → Asset → MediaAnswer
  unfolding open_stored proxy_media
  serve_asset out has_store asset = elim asset.object_key [
    | none ↦ proxy_media out asset.source_url
    | some key ↦ elim (is_managed_cache asset.delivery_policy && has_store) [
      | true ↦ open_stored out asset key
      | false ↦ proxy_media out asset.source_url
    ]
  ]

  -- an error of the query, of whatever kind, means that there is no such asset
  abbrev pub found_asset : Fault → Outcome Error Asset → Option Asset
  found_asset works (ok a) = some a
  found_asset _ _ = none

  abbrev pub answer_asset : Outside → Bool → Option Asset → MediaAnswer
  answer_asset out has_store none = no_asset
  answer_asset out has_store (some asset) = serve_asset out has_store asset

  unfoldable pub media : Outside → Bool → Fault → Option ℕ → Catalogue → MediaAnswer
  unfolding get_deliverable_asset serve_asset
  media out has_store fault none d = bad_id
  media out has_store fault (some id) d =
      answer_asset out has_store (found_asset fault (get_deliverable_asset d id))
