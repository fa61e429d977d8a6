-- ===== src/Catalogue/Contents/Cursors.antt =====
-- The cursor of the contents (internal/httpapi/public.go): what is read back from it.
use el_backend.Text.{Text}
use el_backend.Catalogue.Codec.{bar, Codec}
use el_backend.Catalogue.Contents.{
  parse_parts, split_bar, parse_cursor, format_cursor, split_bar_from,
}
use el_backend.Base.{
  append_assoc, ap, refl, false, ◌==◌, ◌∙◌, append-nil, ◌∷◌, [], some, not, ℕ, ◌≢◌, all, true, ◌++◌,
  Bool, ◌≡◌, arith,
}

abbrev pub no_bar : Text → Bool
no_bar = all (λ c. not (c == bar))

split-no_bar : (part s : Text) → no_bar s ≡ true → split_bar_from part s ≡ (part ++ s) ∷ []
unfolding split_bar_from
split-no_bar part [] h = rw (append-nil part) refl
split-no_bar part (c ∷ s) h =
    let e : (c == bar) ≡ false = ground arith in
    rw (e, split_bar_from)
      (split-no_bar (part ++ c ∷ []) s (ground arith) ∙ rw (append_assoc part (c ∷ []) s) refl)

split-bar :
    (part s r : Text)
    → no_bar s ≡ true
    → split_bar_from part (s ++ bar ∷ r) ≡ (part ++ s) ∷ split_bar_from [] r
unfolding split_bar_from
split-bar part [] r h = rw (append-nil part) refl
split-bar part (c ∷ s) r h =
    let e : (c == bar) ≡ false = ground arith in
    rw (e, split_bar_from)
      (split-bar (part ++ c ∷ []) s r (ground arith) ∙ rw (append_assoc part (c ∷ []) s) refl)

module _ ⦃codec : Codec⦄ where
  split_cursor :
      (t i : ℕ)
      → split_bar (codec.format_nano t ++ bar ∷ codec.uuid_string i)
        ≡ codec.format_nano t ∷ codec.uuid_string i ∷ []
  unfolding split_bar
  split_cursor t i =
      split-bar [] (codec.format_nano t) (codec.uuid_string i) (codec.nano_no_bar t)
      ∙ ap (◌∷◌ (codec.format_nano t)) (split-no_bar [] (codec.uuid_string i) (codec.uuid_no_bar i))

  parse-nonempty :
      (raw decoded : Text)
      → raw ≢ []
      → codec.decode raw ≡ some decoded
      → parse_cursor raw ≡ parse_parts (split_bar decoded)
  unfolding parse_cursor
  parse-nonempty [] decoded n h = absurd (n refl)
  parse-nonempty (c ∷ raw) decoded n h = rw (h, parse_cursor) refl

  append-bar_nonempty : (s r : Text) → (s ++ bar ∷ r) ≢ []
  append-bar_nonempty [] r h = cc
  append-bar_nonempty (c ∷ s) r h = cc

  -- The cursor that is sent for a time and an id is read back as them, and it is not the empty text
  -- that ends the paging.
  pub parse-format_cursor :
      (t i : ℕ)
      → (parse_cursor (format_cursor (some t) i) ≡ some (some (t, i)))
        × (format_cursor (some t) i ≢ [])
  unfolding format_cursor
  parse-format_cursor t i =
      let text = codec.format_nano t ++ bar ∷ codec.uuid_string i in
      let nonempty = codec.encode_nonempty text (append-bar_nonempty _ _) in
      (
        parse-nonempty (codec.encode text) text nonempty (codec.decode-encode text)
            ∙ rw (split_cursor t i, codec.parse-format_nano t, codec.parse-uuid_string i) refl,
        nonempty,
      )
