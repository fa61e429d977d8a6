-- ===== src/Publish/Endpoint/Token.antt =====
-- Whom bearerAuth lets in (internal/httpapi/publishing.go).
use el_backend.Base.{sym, inr, ap, inl, refl, ◌∙◌, arith, ◌↔◌, [], true, false, ◌⊎◌, ◌≢◌, ◌++◌, ◌≡◌}
use el_backend.Publish.Endpoint.{provided, Post, is_authorized, Reader}
use el_backend.Text.{has_prefix, codes, Text}
use el_backend.Text.Prefix.{trim_prefix, trim_prefix-append, trim_prefix-cases, trim_prefix-without}
use el_backend.Text.Equality.{text_eq_iff}
use el_backend.Publish.Options.{text_eq-ne}

abbrev bearer : Text
bearer = codes "Bearer "

-- the headers that stand for a token
abbrev pub Carries : Text → Text → Type 0
Carries token header = (header ≡ bearer ++ token) ⊎ (header ≡ token)

module _ (reader : Reader) (token : Text) where
  authorized-provided :
      (p : Post)
      → is_authorized reader token p ≡ true
      → (provided p ≢ []) × (reader.sum (provided p) ≡ reader.sum token)
  unfolding is_authorized
  authorized-provided p h = (
    (λ e. absurd (ground (arith, (text_eq_iff (provided p) []).1 e))),
    (text_eq_iff (reader.sum (provided p)) (reader.sum token)).0 (ground arith),
  )

  provided-authorized :
      (p : Post) → token ≢ [] → provided p ≡ token → is_authorized reader token p ≡ true
  unfolding is_authorized
  provided-authorized p n e =
      rw (e, text_eq-ne token [] n, (text_eq_iff (reader.sum token) (reader.sum token)).1 refl) refl

  -- Where the token of the server does not begin with "Bearer " and no other text has its digest, the
  -- requests that are let in are those with the header "Bearer " and the token, or the token alone,
  -- and without a token nobody is let in.
  pub authorized_iff :
      ((x : Text) → reader.sum x ≡ reader.sum token → x ≡ token)
      → has_prefix token bearer ≡ false
      → (p : Post)
      → (is_authorized reader token p ≡ true) ↔ ((token ≢ []) × Carries token p.authorization)
  authorized_iff unique plain p = (
    (λ h.
        let (some_text, sums) = authorized-provided p h in
        let same = unique (provided p) sums in
        (
          (λ e. some_text (same ∙ e)),
          elim (trim_prefix-cases p.authorization bearer) [
            | inl e ↦ inl (e ∙ ap (λ x. bearer ++ x) same)
            | inr e ↦ inr (sym e ∙ same)
          ],
        )),
    (λ (n, c). provided-authorized p n (elim c [
      | inl e ↦ ap (λ x. trim_prefix x bearer) e ∙ trim_prefix-append bearer token
      | inr e ↦ ap (λ x. trim_prefix x bearer) e ∙ trim_prefix-without token bearer plain
    ])),
  )
