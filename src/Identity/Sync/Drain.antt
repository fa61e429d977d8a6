-- ===== src/Identity/Sync/Drain.antt =====
-- A client that follows the cursor until there is no more page receives the whole log.
use el_backend.Base.Sort.{sort-Ordered_id, Ordered}
use el_backend.Base.{
  ◌≢◌, take-append-drop, ==_iff, ◌∙◌, sym, false, ◌++◌, length, true, inr, zero, drop, refl, inl,
  ltb, arith, take, Bool-cases, ◌<◌, suc, [], ◌≤◌, filter, ◌∷◌, ◌≡◌, Bool, List, ℕ,
}
use el_backend.Identity.Schema.{Accounts, UserEvent}
use el_backend.Base.Paging.{take_short, length-drop-lt}
use el_backend.Identity.Sync.{
  page_limit, earlier, is_after, list_user_events_after, last_sequence, sync_page,
}

-- the numbers of the events rise, and all lie above `c`
abbrev pub Increasing : ℕ → List UserEvent → Type 0
Increasing c [] = Unit
Increasing c (e ∷ es) = (c < e.sequence) × Increasing e.sequence es

Increasing-weaken : (c c' : ℕ) (es : List UserEvent) → c ≤ c' → Increasing c' es → Increasing c es
Increasing-weaken c c' [] h k = tt
Increasing-weaken c c' (e ∷ es) h k = (omega arith, k.1)

Increasing-filter :
    (p : UserEvent → Bool) (c : ℕ) (es : List UserEvent)
    → Increasing c es
    → Increasing c (filter p es)
Increasing-filter p c [] h = tt
Increasing-filter p c (e ∷ es) h = elim (Bool-cases (p e)) [
  | inl x ↦ rw x (h.0, Increasing-filter p e.sequence es h.1)
  | inr x ↦
      rw x (Increasing-weaken c e.sequence _ (omega arith) (Increasing-filter p e.sequence es h.1))
]

pub Increasing-is_after :
    (u b c : ℕ) (es : List UserEvent) → Increasing c es → Increasing b (filter (is_after u b) es)
Increasing-is_after u b c [] h = tt
Increasing-is_after u b c (e ∷ es) h = elim (Bool-cases (is_after u b e)) [
  | inl x ↦ rw x (ground arith, Increasing-filter (is_after u b) e.sequence es h.1)
  | inr x ↦ rw x (Increasing-is_after u b e.sequence es h.1)
]

Increasing-Ordered : (c : ℕ) (es : List UserEvent) → Increasing c es → Ordered earlier es
Increasing-Ordered c [] h = tt
Increasing-Ordered c (e ∷ []) h = tt
Increasing-Ordered c (e ∷ f ∷ es) h = (ground arith, Increasing-Ordered e.sequence (f ∷ es) h.1)

above_all : (c : ℕ) (es : List UserEvent) → Increasing c es → filter (λ e. ltb c e.sequence) es ≡ es
above_all c [] h = refl
above_all c (e ∷ es) h =
    ground (arith, above_all c es (Increasing-weaken c e.sequence es (omega arith) h.1))

le-last_sequence :
    (c : ℕ) (n : ℕ) (es : List UserEvent) → Increasing c es → c ≤ last_sequence c (take n es)
unfolding last_sequence
le-last_sequence c zero es h = omega arith
le-last_sequence c (suc n) [] h = omega arith
le-last_sequence c (suc n) (e ∷ es) h = omega (arith, le-last_sequence e.sequence n es h.1)

-- what stands behind the last event of a page
behind_page :
    (c n : ℕ) (es : List UserEvent)
    → Increasing c es
    → filter (λ e. ltb (last_sequence c (take n es)) e.sequence) es ≡ drop n es
unfolding last_sequence
behind_page c zero es h = above_all c es h
behind_page c (suc n) [] h = refl
behind_page c (suc n) (e ∷ es) h =
    ground (arith, behind_page e.sequence n es h.1, le-last_sequence e.sequence n es h.1)

filter-is_after :
    (u c m : ℕ) (es : List UserEvent)
    → c ≤ m
    → filter (λ e. ltb m e.sequence) (filter (is_after u c) es) ≡ filter (is_after u m) es
filter-is_after u c m [] h = refl
filter-is_after u c m (e ∷ es) h = ground (arith, filter-is_after u c m es h)

-- the client's loop: fetch pages and follow the cursor while there are more
unfoldable pub drain : ℕ → ℕ → ℕ → Accounts → List UserEvent
drain zero u c d = []
drain (suc fuel) u c d =
    let page = sync_page u c d in
    elim page.has_more [
      | true ↦ page.changes ++ drain fuel u page.next_cursor d
      | false ↦ page.changes
    ]

module _ (u : ℕ) (d : Accounts) (log : Increasing 0 d.events) where
  listed_page :
      (c : ℕ)
      → list_user_events_after u c page_limit d ≡ take page_limit (filter (is_after u c) d.events)
  unfolding list_user_events_after
  listed_page c =
      rw (
        sort-Ordered_id earlier _ (Increasing-Ordered c _ (Increasing-is_after u c 0 d.events log)))

  page_rest :
      (c : ℕ)
      → filter (is_after u (sync_page u c d).next_cursor) d.events
        ≡ drop page_limit (filter (is_after u c) d.events)
  unfolding sync_page
  page_rest c =
      let es = filter (is_after u c) d.events in
      let rising = Increasing-is_after u c 0 d.events log in
      rw (listed_page c) (
        sym (filter-is_after u c _ d.events (le-last_sequence c page_limit es rising))
        ∙ behind_page c page_limit es rising)

  page_changes :
      (c : ℕ) → (sync_page u c d).changes ≡ take page_limit (filter (is_after u c) d.events)
  unfolding sync_page
  page_changes c = listed_page c

  page_full :
      (c : ℕ)
      → (sync_page u c d).has_more ≡ true
      → length (take page_limit (filter (is_after u c) d.events)) ≡ page_limit
  unfolding sync_page
  page_full c h = (==_iff _ _).0 (rw (← listed_page c) h)

  page_short :
      (c : ℕ)
      → (sync_page u c d).has_more ≡ false
      → length (take page_limit (filter (is_after u c) d.events)) ≢ page_limit
  unfolding sync_page
  page_short c h e = cc (h, rw (← listed_page c) at ((==_iff _ _).1 e))

  -- From any cursor, a client that follows `nextCursor` while `hasMore` holds receives exactly its
  -- events behind the cursor, in the order of their numbers and each once; one round more than there
  -- are events is enough.
  pub drain_all :
      (fuel c : ℕ)
      → length (filter (is_after u c) d.events) < fuel
      → drain fuel u c d ≡ filter (is_after u c) d.events
  unfolding drain
  drain_all zero c h = absurd (omega arith)
  drain_all (suc fuel) c h = elim (Bool-cases (sync_page u c d).has_more) [
    | inl more ↦
        let es = filter (is_after u c) d.events in
        let next = (sync_page u c d).next_cursor in
        let enough : length (filter (is_after u next) d.events) < fuel =
          rw (page_rest c) (length-drop-lt page_limit fuel es (omega arith) (page_full c more) h) in
        rw (more, drain)
          (rw (page_changes c, drain_all fuel next enough, page_rest c)
            (take-append-drop page_limit es))
    | inr done ↦ rw (done, drain) (page_changes c ∙ take_short page_limit _ (page_short c done))
  ]
