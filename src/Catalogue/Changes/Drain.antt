-- ===== src/Catalogue/Changes/Drain.antt =====
-- A client of GET /sync (internal/httpapi/public.go) that asks again while there is more.
use el_backend.Catalogue.Contents.{data_of}
use el_backend.Database.{works}
use el_backend.Text.{Text}
use el_backend.Base.Paging.{take_short, length-drop-lt, page_rest, Rising, last_key}
use el_backend.Base.Sort.{stable_sort}
use el_backend.Base.Sort.Select.{Pairwise-filter, filter-sort, sort-Rising, Pairwise}
use el_backend.Catalogue.Codec.{Codec}
use el_backend.Base.{
  map-append, inr, take-append-drop, drop, sym, ==_iff, inl, ◌==◌, false, Bool-cases, zero, refl,
  ◌∙◌, suc, ◌<◌, length, arith, [], ap, ◌∷◌, All, ◌++◌, some, true, take, filter, ◌≡◌, ◌≢◌, map, ℕ,
  List,
}
use el_backend.Base.Int.{negsuc, pos, ℤ}
use el_backend.Catalogue.Changes.{
  event_less, change_limit, changes_of, Change, format_sequence, change_of, sync, parse_sequence,
  beyond, next_sequence, shown, list_publish_events_after,
}
use el_backend.Catalogue.Schema.{Catalogue, PublishEvent}

-- the log as the client sees it
unfoldable pub change_log : Catalogue → List PublishEvent
unfolding shown stable_sort
change_log d = stable_sort event_less (filter (shown d) d.publish_events)

abbrev pub OtherSequence : PublishEvent → PublishEvent → Type 0
OtherSequence a b = a.sequence ≢ b.sequence

abbrev event_key : PublishEvent → ℤ
event_key e = pos e.sequence

list-change_log :
    (z : ℤ) (n : ℕ) (d : Catalogue)
    → list_publish_events_after z n d ≡ take n (filter (beyond z) (change_log d))
unfolding list_publish_events_after change_log
list-change_log z n d = ap (take n) (
    filter-sort event_less (λ a b h. ground arith) (λ a b c h k. ground arith) (beyond z)
      (filter (shown d) d.publish_events))

beyond_trans :
    (z : ℤ) (a b : PublishEvent)
    → beyond z a ≡ true
    → beyond (event_key a) b ≡ true
    → beyond z b ≡ true
beyond_trans (pos n) a b h k = ground arith
beyond_trans (negsuc n) a b h k = ground arith

change_log-Rising :
    (d : Catalogue)
    → Pairwise OtherSequence d.publish_events
    → Rising event_key beyond (change_log d)
unfolding change_log
change_log-Rising d p =
    sort-Rising event_key beyond event_less (λ e. Unit {0}) OtherSequence (λ a b _ _. ground arith)
      (λ a b h. ground arith) (λ a b c h k. ground arith) (λ a b n h. ground arith)
      (filter (shown d) d.publish_events)
      (Pairwise-filter OtherSequence (shown d) d.publish_events p)
      (all_units (filter (shown d) d.publish_events))
  where
    all_units : (es : List PublishEvent) → All (λ e. Unit {0}) es
    all_units [] = tt
    all_units (e ∷ es) = (tt, all_units es)

next-last_key :
    (z : ℤ) (es : List PublishEvent) → next_sequence z es ≡ last_key event_key beyond z es
unfolding next_sequence last_key
next-last_key z [] = refl
next-last_key z (e ∷ es) = next-last_key (pos e.sequence) es

module _ ⦃codec : Codec⦄ where
  -- the client's loop
  unfoldable pub drain : ℕ → Text → Catalogue → List Change
  unfolding sync
  drain zero raw d = []
  drain (suc fuel) raw d = elim (sync works raw d) [
    | data_of page ↦ elim page.has_more [
      | true ↦ page.changes ++ drain fuel page.next_cursor d
      | false ↦ page.changes
    ]
    | other ↦ []
  ]

  parse-format_sequence : (z : ℤ) → parse_sequence (format_sequence z) ≡ some z
  unfolding parse_sequence
  parse-format_sequence z =
      nonempty (format_sequence z) (codec.encode_nonempty _ (codec.format_int_nonempty z))
        (codec.decode-encode (codec.format_int z))
      ∙ codec.parse-format_int z
    where
      nonempty :
          (raw : Text)
          → raw ≢ []
          → codec.decode raw ≡ some (codec.format_int z)
          → parse_sequence raw ≡ codec.parse_int (codec.format_int z)
      nonempty [] n h = absurd (n refl)
      nonempty (c ∷ raw) n h = rw (parse_sequence, h) refl

  module _ (d : Catalogue) (distinct : Pairwise OtherSequence d.publish_events) where
    abbrev behind : ℤ → List PublishEvent
    behind z = filter (beyond z) (change_log d)

    sync-page :
        (raw : Text) (z : ℤ)
        → parse_sequence raw ≡ some z
        → sync works raw d ≡ data_of (changes_of z (take change_limit (behind z)))
    unfolding sync
    sync-page raw z h = rw (h, sync, list-change_log z change_limit d) refl

    -- From any cursor that is read as a number `z`, a client that asks again while there is more
    -- receives the events above `z` whose contents are published and playable, in the order of their
    -- numbers and each once, and comes to an end; one request more than there are such events is
    -- enough.
    pub drain-change_log :
        (fuel : ℕ) (raw : Text) (z : ℤ)
        → parse_sequence raw ≡ some z
        → length (filter (beyond z) (change_log d)) < fuel
        → drain fuel raw d ≡ map change_of (filter (beyond z) (change_log d))
    unfolding drain
    drain-change_log zero raw z p h = absurd (omega arith)
    drain-change_log (suc fuel) raw z p h =
        elim (Bool-cases (length (take change_limit (behind z)) == change_limit)) [
          | inl e ↦
              let rest =
                ap behind (next-last_key z (take change_limit (behind z)))
                ∙ page_rest event_key beyond beyond_trans z change_limit (change_log d)
                    (change_log-Rising d distinct) in
              let next = next_sequence z (take change_limit (behind z)) in
              let small =
                length-drop-lt change_limit fuel (behind z) (omega arith) ((==_iff _ _).0 e) h in
              rw (drain, sync-page raw z p, e)
                (ap (◌++◌ (map change_of (take change_limit (behind z)))) (
                    drain-change_log fuel (format_sequence next) next (parse-format_sequence next)
                      (rw rest small)
                    ∙ ap (map change_of) rest)
                  ∙ sym (
                      map-append change_of (take change_limit (behind z))
                        (drop change_limit (behind z)))
                  ∙ ap (map change_of) (take-append-drop change_limit (behind z)))
          | inr e ↦
              let whole =
                take_short change_limit (behind z) (λ full. cc (e, (==_iff _ _).1 full)) in
              rw (drain, sync-page raw z p, e) (ap (map change_of) whole)
        ]
