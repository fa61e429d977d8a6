-- ===== src/Retell/Lost.antt =====
-- What an upload does to the recording of an earlier one, when the database is not reached.
use el_backend.Retell.Stored.{store_recording-Stored, Stored}
use el_backend.Retell.Requests.{Opened, store_unavailable, get_retell_attempt, serve_recording}
use el_backend.Base.Int.{pos, ltb_ℤ}
use el_backend.Identity.Schema.{RetellAttempt, Accounts}
use el_backend.Identity.Service.{Moment}
use el_backend.Database.{World, lost, Fault, answer, on_pool}
use el_backend.Text.{trim_space, Text}
use el_backend.Base.{
  [], sym, ◌∙◌, none, subst, ap, Option, some, find?, refl, arith, Bool, ◌∷◌, false, true, ◌≡◌,
  List, ℕ,
}
use el_backend.Retell.{
  Answer, data_row, retell_key, retell_row, before_semicolon, is_audio, max_recording_bytes,
  ObjectStore, Headers, Upload, store_recording, object_key, after_query, after_put,
}

module _ {O : Type 0} (store : ObjectStore O) (uuid_text : ℕ → Text) where
  removed_after :
      (now : ℕ) (e : RetellAttempt) (d : Accounts) (later : List Fault) (p : Bool × O)
      → p.0 ≡ true
      → (store.remove e.object_key p.1).0 ≡ true
      → ((after_put store now e (record { tables = d; faults = lost ∷ later }) p).1.0.tables ≡ d)
        × (store.holds e.object_key
              (after_put store now e (record { tables = d; faults = lost ∷ later }) p).1.1
            ≡ false)
  unfolding after_put after_query on_pool answer
  removed_after now e d later (false, o) stored removed = absurd (ground arith)
  removed_after now e d later (true, o) stored removed =
      (refl, store.remove_gone e.object_key o removed)

  removed_again :
      (t : Moment) (u : ℕ) (h : Headers) (up : Upload) (d : Accounts) (later : List Fault) (o : O)
      → ltb_ℤ (pos 0) h.content_length ≡ true
      → ltb_ℤ (pos max_recording_bytes) h.content_length ≡ false
      → is_audio (trim_space (before_semicolon h.content_type)) ≡ true
      → (store.put (object_key uuid_text u up.attempt_id) o).0 ≡ true
      → (store.remove
          (object_key uuid_text u up.attempt_id)
          (store.put (object_key uuid_text u up.attempt_id) o).1).0
        ≡ true
      → ((store_recording store uuid_text t u h up
            (record { tables = d; faults = lost ∷ later }, o)).1.0.tables
          ≡ d)
        × (store.holds
              (object_key uuid_text u up.attempt_id)
              (store_recording store uuid_text t u h up
                (record { tables = d; faults = lost ∷ later }, o)).1.1
            ≡ false)
  unfolding store_recording
  removed_again t u h up d later o filled few audio stored removed =
      rw (filled, few, audio)
        (removed_after t.now
          (retell_row t.now u (object_key uuid_text u up.attempt_id) h
            (trim_space (before_semicolon h.content_type)) up)
          d later (store.put (object_key uuid_text u up.attempt_id) o) stored removed)

  -- the upload of `up` from these tables and objects, without faults but for the given ones
  abbrev pub upload_again :
      Moment → ℕ → Headers → Upload → List Fault → Accounts × O → Answer × (World Accounts × O)
  upload_again t u h up faults (d, o) =
      store_recording store uuid_text t u h up (record { tables = d; faults = faults }, o)

  -- An attempt whose recording is uploaded is uploaded again, and the database does not get the second
  -- statement: the second request is a proper one, its object is put, and the handler's removal of it
  -- succeeds. Then the row of the first upload is still there, with its key, and its object is gone: a
  -- download fails.
  pub recording_lost :
      (open_object : Text → O → Option Opened)
      → ((k : Text) (x : O) → store.holds k x ≡ false → open_object k x ≡ none)
      → (t t' : Moment) (u : ℕ) (h h' : Headers) (up up' : Upload) (w : World Accounts) (o : O)
        (row : RetellAttempt) (later : List Fault) (w1 : World Accounts) (stored : O)
      → store_recording store uuid_text t u h up (w, o) ≡ (data_row row, (w1, stored))
      → up'.attempt_id ≡ up.attempt_id
      → ltb_ℤ (pos 0) h'.content_length ≡ true
      → ltb_ℤ (pos max_recording_bytes) h'.content_length ≡ false
      → is_audio (trim_space (before_semicolon h'.content_type)) ≡ true
      → (store.put row.object_key stored).0 ≡ true
      → (store.remove row.object_key (store.put row.object_key stored).1).0 ≡ true
      → (store.holds row.object_key stored ≡ true)
        × (find?
              (retell_key u up.attempt_id)
              (upload_again t' u h' up' (lost ∷ later) (w1.tables, stored)).1.0.tables.retells
            ≡ some row)
        × (store.holds row.object_key
              (upload_again t' u h' up' (lost ∷ later) (w1.tables, stored)).1.1
            ≡ false)
        × ((serve_recording open_object u
              (some up.attempt_id)
              (record {
                tables = (upload_again t' u h' up' (lost ∷ later) (w1.tables, stored)).1.0.tables;
                faults = [];
              })
              (upload_again t' u h' up' (lost ∷ later) (w1.tables, stored)).1.1).0
            ≡ store_unavailable)
  unfolding serve_recording get_retell_attempt on_pool
  recording_lost open_object shut t t' u h h' up up' w o row later w1 stored first again filled few
        audio put removed =
      let a = up.attempt_id in
      let key = object_key uuid_text u a in
      let s =
        subst
          (λ (x : Answer × (World Accounts × O)). Stored store uuid_text u a row x.1.0.tables x.1.1)
          first
          (store_recording-Stored store uuid_text t u h up w o row
            (ap (λ (x : Answer × (World Accounts × O)). x.0) first)) in
      let same : row.object_key ≡ object_key uuid_text u up'.attempt_id =
        s.key ∙ ap (object_key uuid_text u) (sym again) in
      let (kept, gone) =
        removed_again t' u h' up' w1.tables later stored filled few audio (rw same at put)
          (rw same at removed) in
      let after = (upload_again t' u h' up' (lost ∷ later) (w1.tables, stored)).1 in
      let found : find? (retell_key u a) after.0.tables.retells ≡ some row =
        ap (λ (x : Accounts). find? (retell_key u a) x.retells) kept ∙ s.found in
      let lost_object : store.holds row.object_key after.1 ≡ false =
        ap (λ k. store.holds k after.1) same ∙ gone in
      (
        ap (λ k. store.holds k stored) s.key ∙ s.held,
        found,
        lost_object,
        rw
            (
              serve_recording,
              get_retell_attempt,
              on_pool,
              found,
              shut row.object_key after.1 lost_object,
            )
            refl,
      )
