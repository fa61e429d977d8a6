-- ===== src/Retell/Kept.antt =====
-- Whether the recordings that the table names are in the object store, after an upload.
use el_backend.Base.Int.{pos, ltb_ℤ}
use el_backend.Identity.Service.{Moment}
use el_backend.Publish.Options.{text_eq-false}
use el_backend.Text.Equality.{text_eq_iff}
use el_backend.Database.Table.{merged, upsert_row}
use el_backend.Base.{
  ◌||◌, not, false, Bool, All-weaken, none, ap, find?, ◌∙◌, some, Option, true, refl, [], sym,
  subst, arith, inr, inl, Outcome, Bool-cases, ◌∷◌, err, ◌⊎◌, List, ok, ◌≡◌, All, ℕ,
}
use el_backend.Identity.Schema.{RetellAttempt, Accounts}
use el_backend.Database.{Error, World, on_pool}
use el_backend.Database.Pool.{on_pool-cases}
use el_backend.Text.{trim_space, text_eq, Text}
use el_backend.Retell.{
  retell_row, before_semicolon, is_audio, max_recording_bytes, unsupported_media_type,
  recording_too_large, validation_error, media_store_unavailable, internal_error, Answer,
  retell_key, ObjectStore, Headers, Upload, data_row, store_recording, object_key, after_query,
  after_put, upsert_retell_attempt, merge_retell,
}

module _ (Q : Text → Type 0) where
  abbrev AllKeys : Accounts → Type 0
  AllKeys d = All (λ (r : RetellAttempt). Q r.object_key) d.retells

  upsert-AllKeys :
      (now : ℕ) (e row : RetellAttempt) (d d' : Accounts)
      → upsert_retell_attempt now e d ≡ ok (row, d')
      → Q e.object_key
      → AllKeys d
      → AllKeys d' × (row.object_key ≡ e.object_key)
  unfolding upsert_retell_attempt merge_retell
  upsert-AllKeys now e row d d' h q k =
      let rows : d'.retells
          ≡ upsert_row (retell_key e.user_id e.id) e (merge_retell now e) d.retells =
        ground arith in
      let made : row ≡ merged e (merge_retell now e) (find? (retell_key e.user_id e.id) d.retells) =
        ground arith in
      (
        subst (All (λ (r : RetellAttempt). Q r.object_key)) (sym rows) (upserted d.retells k),
        ap (λ (r : RetellAttempt). r.object_key) made
            ∙ merged_key (find? (retell_key e.user_id e.id) d.retells),
      )
    where
      merged_key :
          (o : Option RetellAttempt) → (merged e (merge_retell now e) o).object_key ≡ e.object_key
      merged_key none = refl
      merged_key (some r) = refl

      upserted :
          (rows : List RetellAttempt)
          → All (λ (r : RetellAttempt). Q r.object_key) rows
          → All
              (λ (r : RetellAttempt). Q r.object_key)
              (upsert_row (retell_key e.user_id e.id) e (merge_retell now e) rows)
      upserted [] k = (q, tt)
      upserted (r ∷ rows) k = elim (Bool-cases (retell_key e.user_id e.id r)) [
        | inl x ↦ rw x (q, k.1)
        | inr x ↦ rw x (k.0, upserted rows k.1)
      ]

module _ {O : Type 0} (store : ObjectStore O) where
  -- every recording of the table is in the store; the second is silent about one key
  abbrev pub IsKept : World Accounts × O → Type 0
  IsKept s = All (λ (r : RetellAttempt). store.holds r.object_key s.1 ≡ true) s.0.tables.retells

  abbrev pub IsKeptBut : Text → World Accounts × O → Type 0
  IsKeptBut key s =
      All (λ (r : RetellAttempt). (r.object_key ≡ key) ⊎ (store.holds r.object_key s.1 ≡ true))
        s.0.tables.retells

  abbrev pub Upheld : Text → Answer × (World Accounts × O) → Type 0
  Upheld key (data_row row, s) = IsKept s × ((row.object_key ≡ key) × (store.holds key s.1 ≡ true))
  Upheld key (internal_error, s) = IsKeptBut key s
  Upheld key (media_store_unavailable, s) = IsKeptBut key s
  Upheld key (validation_error, s) = IsKept s
  Upheld key (recording_too_large, s) = IsKept s
  Upheld key (unsupported_media_type, s) = IsKept s

  abbrev Stays : Text → O → Text → Type 0
  Stays key o j = (j ≡ key) ⊎ (store.holds j o ≡ true)

  put-Stays : (key j : Text) (o : O) → store.holds j o ≡ true → Stays key (store.put key o).1 j
  put-Stays key j o h = elim (Bool-cases (text_eq j key)) [
    | inl e ↦ inl ((text_eq_iff j key).0 e)
    | inr e ↦ inr (store.put_others key j o (λ x. text_eq-false j key e x) ∙ h)
  ]

  remove-Stays : (key j : Text) (o : O) → Stays key o j → Stays key (store.remove key o).1 j
  remove-Stays key j o (inl e) = inl e
  remove-Stays key j o (inr h) = elim (Bool-cases (text_eq j key)) [
    | inl e ↦ inl ((text_eq_iff j key).0 e)
    | inr e ↦ inr (store.remove_others key j o (λ x. text_eq-false j key e x) ∙ h)
  ]

  settled :
      (key j : Text) (o : O) → store.holds key o ≡ true → Stays key o j → store.holds j o ≡ true
  settled key j o h (inl e) = ap (λ x. store.holds x o) e ∙ h
  settled key j o h (inr k) = k

  query-Upheld :
      (now : ℕ) (e : RetellAttempt) (w : World Accounts) (o : O)
      → store.holds e.object_key o ≡ true
      → All (λ (r : RetellAttempt). Stays e.object_key o r.object_key) w.tables.retells
      → Upheld e.object_key
          (after_query store e.object_key (on_pool (upsert_retell_attempt now e) w) o)
  unfolding after_query
  query-Upheld now e w o h k =
      ends (on_pool (upsert_retell_attempt now e) w) (on_pool-cases (upsert_retell_attempt now e) w)
    where
      ends :
          (r : Outcome Error RetellAttempt × World Accounts)
          → ((row : RetellAttempt) × ((r.0 ≡ ok row)
                × (upsert_retell_attempt now e w.tables ≡ ok (row, r.1.tables))))
            ⊎ ((c : Error) × ((r.0 ≡ err c)
                  × ((r.1.tables ≡ w.tables)
                      ⊎ ((row : RetellAttempt) × (upsert_retell_attempt now e w.tables
                            ≡ ok (row, r.1.tables))))))
          → Upheld e.object_key (after_query store e.object_key r o)
      ends (ok row, w') (inl (row', (x, y))) =
          let all_held =
            upsert-AllKeys (λ j. store.holds j o ≡ true) now e row' w.tables w'.tables y h
              (All-weaken (λ (r : RetellAttempt) z. settled e.object_key r.object_key o h z)
                w.tables.retells k) in
          let same : row ≡ row' =
            ap (λ (z : Outcome Error RetellAttempt). elim z [ ok r ↦ r | err c ↦ row ]) x in
          (all_held.0, (ap (λ (r : RetellAttempt). r.object_key) same ∙ all_held.1, h))
      ends (ok row, w') (inr (c, (x, y))) = absurd (ground arith)
      ends (err c, w') (inl (row', (x, y))) = absurd (ground arith)
      ends (err c, w') (inr (c', (x, inl y))) =
          subst
            (λ (d : Accounts).
              All
                (λ (r : RetellAttempt).
                  Stays e.object_key (store.remove e.object_key o).1 r.object_key)
                d.retells)
            (sym y)
            (All-weaken (λ (r : RetellAttempt). remove-Stays e.object_key r.object_key o)
              w.tables.retells k)
      ends (err c, w') (inr (c', (x, inr (row, y)))) =
          All-weaken (λ (r : RetellAttempt). remove-Stays e.object_key r.object_key o)
            w'.tables.retells
            (upsert-AllKeys (Stays e.object_key o) now e row w.tables w'.tables y (inl refl) k).0

  put-Upheld :
      (now : ℕ) (e : RetellAttempt) (w : World Accounts) (o : O)
      → IsKept (w, o)
      → Upheld e.object_key (after_put store now e w (store.put e.object_key o))
  unfolding after_put
  put-Upheld now e w o k =
      ends (store.put e.object_key o) (store.put_holds e.object_key o) (
        All-weaken (λ (r : RetellAttempt). put-Stays e.object_key r.object_key o) w.tables.retells
          k)
    where
      ends :
          (r : Bool × O)
          → (r.0 ≡ true → store.holds e.object_key r.1 ≡ true)
          → All (λ (x : RetellAttempt). Stays e.object_key r.1 x.object_key) w.tables.retells
          → Upheld e.object_key (after_put store now e w r)
      ends (false, o') h x = x
      ends (true, o') h x = query-Upheld now e w o' (h refl) x

  -- If every recording that the table names is in the store, then an upload that is answered with its
  -- row leaves it so and has stored its object; one whose request is refused changes nothing of it; and
  -- one that fails in the store or in the database leaves it so for all objects but its own.
  pub store_recording-Upheld :
      (uuid_text : ℕ → Text) (t : Moment) (u : ℕ) (h : Headers) (up : Upload) (w : World Accounts)
      (o : O)
      → IsKept (w, o)
      → Upheld
          (object_key uuid_text u up.attempt_id)
          (store_recording store uuid_text t u h up (w, o))
  unfolding store_recording
  store_recording-Upheld uuid_text t u h up w o k =
      elim (Bool-cases (
        not (ltb_ℤ (pos 0) h.content_length) || ltb_ℤ (pos max_recording_bytes) h.content_length)) [
          | inl x ↦ rw x k
          | inr x ↦ elim (Bool-cases (is_audio (trim_space (before_semicolon h.content_type)))) [
            | inl y ↦
                rw (x, y)
                  (put-Upheld t.now
                    (retell_row t.now u (object_key uuid_text u up.attempt_id) h
                      (trim_space (before_semicolon h.content_type)) up)
                    w o k)
            | inr y ↦ rw (x, y) k
          ]
        ]
