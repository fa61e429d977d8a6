-- ===== src/Retell/Stored.antt =====
-- The row and the object that an upload leaves behind (internal/httpapi/retell.go).
use el_backend.Identity.Login.Marks.{ok_not_err}
use el_backend.Database.Pool.{on_pool-cases}
use el_backend.Database.Table.{upsert_row, find-upsert_self, merged}
use el_backend.Base.Int.{pos, ltb_ℤ}
use el_backend.Identity.Schema.{RetellAttempt, Accounts}
use el_backend.Identity.Service.{Moment}
use el_backend.Database.{World, Error, answer, on_pool}
use el_backend.Text.{trim_space, Text}
use el_backend.Base.{
  ◌||◌, not, inr, Bool-cases, sym, ◌≢◌, ◌∙◌, inl, none, ==_refl, subst, ap, err, Option, some, ok,
  Outcome, find?, refl, arith, Bool, false, true, ◌≡◌, ℕ,
}
use el_backend.Retell.{
  unsupported_media_type, recording_too_large, Answer, data_row, retell_key, merge_retell,
  upsert_retell_attempt, retell_row, before_semicolon, is_audio, max_recording_bytes, ObjectStore,
  Headers, Upload, store_recording, object_key, after_query, after_put,
}

module _ {O : Type 0} (store : ObjectStore O) (uuid_text : ℕ → Text) where
  -- the row that an upload has written
  pub record Stored (u a : ℕ) (row : RetellAttempt) (d : Accounts) (o : O) : Type 0 where
    pub found : find? (retell_key u a) d.retells ≡ some row
    pub key : row.object_key ≡ object_key uuid_text u a
    pub held : store.holds (object_key uuid_text u a) o ≡ true

  upsert-found :
      (now : ℕ) (e row : RetellAttempt) (d d' : Accounts)
      → upsert_retell_attempt now e d ≡ ok (row, d')
      → (find? (retell_key e.user_id e.id) d'.retells ≡ some row) × (row.object_key ≡ e.object_key)
  unfolding upsert_retell_attempt merge_retell
  upsert-found now e row d d' h =
      let hits = retell_key e.user_id e.id in
      let rows : d'.retells ≡ upsert_row hits e (merge_retell now e) d.retells = ground arith in
      let made : row ≡ merged e (merge_retell now e) (find? hits d.retells) = ground arith in
      (
        ap (find? hits) rows
            ∙ find-upsert_self hits e (merge_retell now e)
                (rw (==_refl e.user_id, ==_refl e.id) refl) (λ r k. k) d.retells
            ∙ ap (λ z. some z) (sym made),
        ap (λ (r : RetellAttempt). r.object_key) made ∙ merged_key (find? hits d.retells),
      )
    where
      merged_key :
          (x : Option RetellAttempt) → (merged e (merge_retell now e) x).object_key ≡ e.object_key
      merged_key none = refl
      merged_key (some r) = refl

  query-Stored :
      (now u : ℕ) (h : Headers) (content_type : Text) (up : Upload) (row : RetellAttempt) (o : O)
      (r : Outcome Error RetellAttempt × World Accounts) (d : Accounts)
      → store.holds (object_key uuid_text u up.attempt_id) o ≡ true
      → ((x : RetellAttempt)
          → r.0 ≡ ok x
          → upsert_retell_attempt now
              (retell_row now u (object_key uuid_text u up.attempt_id) h content_type up)
              d
            ≡ ok (x, r.1.tables))
      → (after_query store (object_key uuid_text u up.attempt_id) r o).0 ≡ data_row row
      → Stored u up.attempt_id row
          (after_query store (object_key uuid_text u up.attempt_id) r o).1.0.tables
          (after_query store (object_key uuid_text u up.attempt_id) r o).1.1
  unfolding after_query
  query-Stored now u h content_type up row o (err e, w) d held run answer = absurd (ground arith)
  query-Stored now u h content_type up row o (ok x, w) d held run answer =
      let same : x ≡ row = ap (λ (z : Answer). elim z [ data_row y ↦ y | _ ↦ x ]) answer in
      let (found, key) =
        upsert-found now (retell_row now u (object_key uuid_text u up.attempt_id) h content_type up)
          x d w.tables (run x refl) in
      subst (λ y. Stored u up.attempt_id y w.tables o) same
        (record { found = found; key = key; held = held })

  put-Stored :
      (now u : ℕ) (h : Headers) (content_type : Text) (up : Upload) (row : RetellAttempt)
      (w : World Accounts) (p : Bool × O)
      → (p.0 ≡ true → store.holds (object_key uuid_text u up.attempt_id) p.1 ≡ true)
      → (after_put store now
          (retell_row now u (object_key uuid_text u up.attempt_id) h content_type up)
          w
          p).0
        ≡ data_row row
      → Stored u up.attempt_id row
          (after_put store now
            (retell_row now u (object_key uuid_text u up.attempt_id) h content_type up)
            w
            p).1.0.tables
          (after_put store now
            (retell_row now u (object_key uuid_text u up.attempt_id) h content_type up)
            w
            p).1.1
  unfolding after_put
  put-Stored now u h content_type up row w (false, o) held answer = absurd (ground arith)
  put-Stored now u h content_type up row w (true, o) held answer =
      let q =
        upsert_retell_attempt now
          (retell_row now u (object_key uuid_text u up.attempt_id) h content_type up) in
      query-Stored now u h content_type up row o (on_pool q w) w.tables (held refl)
        (λ x e. elim (on_pool-cases q w) [
          | inl (y, (e', k)) ↦
              let same : y ≡ x =
                ap (λ (z : Outcome Error RetellAttempt). elim z [ ok v ↦ v | err _ ↦ x ])
                  (sym e' ∙ e) in
              k ∙ ap (λ z. ok (z, (on_pool q w).1.tables)) same
          | inr (c, (e', _)) ↦ absurd (ok_not_err (sym e ∙ e'))
        ])
        answer

  pub store_recording-Stored :
      (t : Moment) (u : ℕ) (h : Headers) (up : Upload) (w : World Accounts) (o : O)
      (row : RetellAttempt)
      → (store_recording store uuid_text t u h up (w, o)).0 ≡ data_row row
      → Stored u up.attempt_id row
          (store_recording store uuid_text t u h up (w, o)).1.0.tables
          (store_recording store uuid_text t u h up (w, o)).1.1
  unfolding store_recording
  store_recording-Stored t u h up w o row replied =
      let key = object_key uuid_text u up.attempt_id in
      let content_type = trim_space (before_semicolon h.content_type) in
      elim (Bool-cases (
        not (ltb_ℤ (pos 0) h.content_length) || ltb_ℤ (pos max_recording_bytes) h.content_length)) [
          | inl x ↦ absurd (data_not_large (rw x at replied))
          | inr x ↦ elim (Bool-cases (is_audio content_type)) [
            | inl y ↦
                rw (x, y)
                  (put-Stored t.now u h content_type up row w (store.put key o)
                    (store.put_holds key o) (rw (x, y) at replied))
            | inr y ↦ absurd (data_not_type (rw (x, y) at replied))
          ]
        ]
    where
      data_not_large : recording_too_large ≢ data_row row
      data_not_large e = ground arith

      data_not_type : unsupported_media_type ≢ data_row row
      data_not_type e = ground arith
