-- ===== src/Catalogue/Media/Safe.antt =====
-- What GET /media/{id} (internal/httpapi/public.go) hands out, and which hosts it asks.
use el_backend.Publish.Options.{there, here, Any}
use el_backend.Catalogue.Queries.{deliverable, get_deliverable_asset, first_row}
use el_backend.Catalogue.Schema.{is_managed_cache, Asset, Catalogue}
use el_backend.Base.{
  err, Outcome, ◌==◌, [], ◌&&◌, ◌∷◌, ok, some, filter, false, refl, Bool, zero, Option-cases, inr,
  inl, Bool-cases, suc, arith, ◌≤◌, length, ◌+◌, true, ◌≡◌, ◌<◌, ℕ, All, List,
}
use el_backend.Catalogue.Media.{
  found_asset, answer_asset, upstream_failed, proxied, from_store, open_stored, media, MediaAnswer,
  answer_of, serve_asset, proxy_media, allowed_url, Outside, check_redirect, Url, do_request,
}
use el_backend.Text.{Text, Unicode}
use el_backend.Database.{unheard, works, lost, Error, Fault}

module _ ⦃u : Unicode⦄ where
  abbrev pub Polite : List Url → Type 0
  Polite urls = All (λ url. allowed_url url ≡ true) urls × (length urls ≤ 5)

  requests-allowed :
      (out : Outside) (fuel via : ℕ) (url : Url)
      → via < 5
      → allowed_url url ≡ true
      → All (λ v. allowed_url v ≡ true) (do_request out fuel via url).0
        × (via + length (do_request out fuel via url).0 ≤ 5)
  unfolding do_request check_redirect
  requests-allowed out zero via url h a = (tt, omega arith)
  requests-allowed out (suc fuel) via url h a = elim (Bool-cases (out.fails url)) [
    | inl e ↦ rw (e, do_request) ((a, tt), omega arith)
    | inr e ↦ elim (Option-cases (out.redirect_of url)) [
      | inl r ↦ rw (do_request, e, r) ((a, tt), omega arith)
      | inr (next, r) ↦ elim (Bool-cases (check_redirect (via + 1) next)) [
        | inl k ↦
            let ih = requests-allowed out fuel (via + 1) next (ground arith) (ground arith) in
            rw (do_request, e, r, k) ((a, ih.0), omega (arith, ih.1))
        | inr k ↦ rw (do_request, e, r, k) ((a, tt), omega arith)
      ]
    ]
  ]

  -- Following redirects ends by the limit of five requests: from a request that may be made, every fuel
  -- that is at least what is left of the five gives the same result.
  pub do_request-enough :
      (out : Outside) (fuel more via : ℕ) (url : Url)
      → via < 5
      → 5 ≤ via + fuel
      → 5 ≤ via + more
      → do_request out fuel via url ≡ do_request out more via url
  unfolding do_request check_redirect
  do_request-enough out zero more via url h a b = absurd (omega arith)
  do_request-enough out (suc fuel) zero via url h a b = absurd (omega arith)
  do_request-enough out (suc fuel) (suc more) via url h a b = elim (Bool-cases (out.fails url)) [
    | inl e ↦ rw (e, do_request) refl
    | inr e ↦ elim (Option-cases (out.redirect_of url)) [
      | inl r ↦ rw (do_request, e, r) refl
      | inr (next, r) ↦ elim (Bool-cases (check_redirect (via + 1) next)) [
        | inl k ↦
            let ih =
              do_request-enough out fuel more (via + 1) next (ground arith) (omega arith)
                (omega arith) in
            rw (do_request, e, r, k) (rw ih refl)
        | inr k ↦ rw (do_request, e, r, k) refl
      ]
    ]
  ]

  -- what an answer may be for the asset with this id
  abbrev pub Safe : Catalogue → ℕ → MediaAnswer → Type 0
  Safe d id (from_store key t) =
      (a : Asset) × Any (λ b. b ≡ a) d.assets
      × (a.id ≡ id)
      × (deliverable a ≡ true)
      × (is_managed_cache a.delivery_policy ≡ true)
      × (a.object_key ≡ some key)
  Safe d id (proxied urls) = Polite urls
  Safe d id (upstream_failed urls) = Polite urls
  Safe d id _ = Unit

  answer-Safe :
      (d : Catalogue) (id : ℕ) (r : List Url × Bool) → Polite r.0 → Safe d id (answer_of r)
  answer-Safe d id (urls, true) p = p
  answer-Safe d id (urls, false) p = p

  proxy-Safe : (out : Outside) (d : Catalogue) (id : ℕ) (s : Text) → Safe d id (proxy_media out s)
  unfolding proxy_media
  proxy-Safe out d id s = elim (Option-cases (out.parse_url s)) [
    | inl e ↦ rw (proxy_media, e) tt
    | inr (url, e) ↦ elim (Bool-cases (allowed_url url)) [
      | inl a ↦
          rw (proxy_media, e, a)
            (let r = requests-allowed out 6 0 url (omega arith) a in
              answer-Safe d id (do_request out 6 0 url) (r.0, omega (arith, r.1)))
      | inr a ↦ rw (proxy_media, e, a) tt
    ]
  ]

first_row-filter :
    {A : Type 0} (p : A → Bool) (xs : List A) (a : A)
    → first_row (filter p xs) ≡ ok a
    → (p a ≡ true) × Any (λ b. b ≡ a) xs
first_row-filter p [] a h = cc
first_row-filter p (x ∷ xs) a h = elim (Bool-cases (p x)) [
  | inl e ↦ let k : x ≡ a = ground arith in (rw (← k) e, here k)
  | inr e ↦ let (k, m) = first_row-filter p xs a (rw e at h) in (k, there m)
]

module _ ⦃u : Unicode⦄ where
  serve-Safe :
      (out : Outside) (has_store : Bool) (d : Catalogue) (id : ℕ) (a : Asset)
      → a.id ≡ id
      → deliverable a ≡ true
      → Any (λ b. b ≡ a) d.assets
      → Safe d id (serve_asset out has_store a)
  unfolding serve_asset open_stored
  serve-Safe out has_store d id a i e m = elim (Option-cases a.object_key) [
    | inl k ↦ rw (serve_asset, k) (proxy-Safe out d id a.source_url)
    | inr (key, k) ↦ elim (Bool-cases (is_managed_cache a.delivery_policy && has_store)) [
      | inl c ↦ elim (Option-cases (out.open_object key)) [
        | inl o ↦ rw (serve_asset, k, c, open_stored, o) tt
        | inr (t, o) ↦ rw (serve_asset, k, c, open_stored, o) (a, m, i, e, ground arith, k)
      ]
      | inr c ↦ rw (serve_asset, k, c) (proxy-Safe out d id a.source_url)
    ]
  ]

  found-Safe :
      (out : Outside) (has_store : Bool) (fault : Fault) (id : ℕ) (d : Catalogue)
      (r : Outcome Error Asset)
      → get_deliverable_asset d id ≡ r
      → Safe d id (answer_asset out has_store (found_asset fault r))
  unfolding get_deliverable_asset
  found-Safe out has_store works id d (ok a) e =
      let (p, m) = first_row-filter (λ a. a.id == id && deliverable a) d.assets a e in
      serve-Safe out has_store d id a (ground arith) (ground arith) m
  found-Safe out has_store works id d (err x) e = tt
  found-Safe out has_store lost id d r e = tt
  found-Safe out has_store unheard id d r e = tt

  module _ (out : Outside) (has_store : Bool) (fault : Fault) (id : ℕ) (d : Catalogue) where
    -- An object is served from the store only for an asset of that id that is deliverable, kept in the
    -- managed cache, and has that object; and every request to another host, redirects included, goes
    -- over https to one of the allowed hosts, five at most.
    pub media-Safe : Safe d id (media out has_store fault (some id) d)
    unfolding media
    media-Safe = found-Safe out has_store fault id d (get_deliverable_asset d id) refl
