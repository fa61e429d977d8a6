-- ===== src/Catalogue/Dictionary/Spec.antt =====
-- What GET /dictionary/{word} (internal/httpapi/dictionary.go) answers.
use el_backend.Catalogue.Contents.{data_of}
use el_backend.Database.{works}
use el_backend.Database.Table.{any}
use el_backend.Base.Sort.{stable_sort}
use el_backend.Identity.Input.{normalize_vocabulary_word}
use el_backend.Publish.Options.{any-All, AllDistinct}
use el_backend.Catalogue.Collect.Made.{collect-all, Made}
use el_backend.Catalogue.Schema.{Catalogue, DictionaryEntry}
use el_backend.Catalogue.Codec.{Collation}
use el_backend.Catalogue.Dictionary.{
  list_dictionary_form_lemmas, sense_less, LookupAnswer, bases, entry_key, lower_trimmed,
  dictionary, lookup_dictionary_entries, entry_item, first_entries, dictionary_candidates,
  EntryItem,
}
use el_backend.Text.{text_eq, to_lower, Text, Unicode}
use el_backend.Base.{
  All-weaken, All-map, inr, filter, inl, refl, suc, ◌≢◌, ap, ok, Bool-cases, All, length-take-le,
  [], ◌∷◌, ◌≤◌, ◌≡◌, ◌++◌, map, length, List, arith,
}

length-map : {A B : Type 0} (f : A → B) (xs : List A) → length (map f xs) ≡ length xs
length-map f [] = refl
length-map f (x ∷ xs) = ap suc (length-map f xs)

module _ ⦃u : Unicode⦄ where
  -- the candidates are distinct and not empty, each comes from the word, a lemma or a base, and all of
  -- these are among them
  pub dictionary_candidates-Made :
      (word : Text) (lemmas : List Text)
      → Made lower_trimmed (bases word lemmas) (dictionary_candidates word lemmas)
  unfolding dictionary_candidates
  dictionary_candidates-Made word lemmas = collect-all lower_trimmed (bases word lemmas)

  first-AllDistinct :
      (seen : List Text) (es : List DictionaryEntry)
      → AllDistinct (map entry_key (first_entries seen es))
        × All (λ e. All (λ s. entry_key e ≢ s) seen) (first_entries seen es)
  unfolding first_entries
  first-AllDistinct seen [] = (tt, tt)
  first-AllDistinct seen (e ∷ es) = elim (Bool-cases (any (text_eq (entry_key e)) seen)) [
    | inl h ↦ rw (first_entries, h) (first-AllDistinct seen es)
    | inr h ↦
        let (distinct, fresh) = first-AllDistinct (entry_key e ∷ seen) es in
        let rest = first_entries (entry_key e ∷ seen) es in
        rw (first_entries, h)
          (
            (All-map _ entry_key rest (All-weaken (λ _ x. x.0) rest fresh), distinct),
            (any-All (entry_key e) seen h, All-weaken (λ _ x. x.1) rest fresh),
          )
  ]

  length-first_entries :
      (seen : List Text) (es : List DictionaryEntry) → length (first_entries seen es) ≤ length es
  unfolding first_entries
  length-first_entries seen [] = omega arith
  length-first_entries seen (e ∷ es) = elim (Bool-cases (any (text_eq (entry_key e)) seen)) [
    | inl h ↦ rw (first_entries, h) (omega (arith, length-first_entries seen es))
    | inr h ↦ rw (first_entries, h) (omega (arith, length-first_entries (entry_key e ∷ seen) es))
  ]

  -- what tells the entries of an answer apart
  abbrev pub item_key : EntryItem → Text
  item_key e = e.part_of_speech ++ 0 ∷ to_lower e.definition

  map-item_key : (es : List DictionaryEntry) → map item_key (map entry_item es) ≡ map entry_key es
  unfolding entry_item
  map-item_key [] = refl
  map-item_key (e ∷ es) = ap (◌∷◌ (entry_key e)) (map-item_key es)

  module _ ⦃collation : Collation⦄ where
    entries_ok :
        (words : List Text) (d : Catalogue)
        → (length (map entry_item (first_entries [] (lookup_dictionary_entries words d))) ≤ 16)
          × AllDistinct
              (map item_key (map entry_item (first_entries [] (lookup_dictionary_entries words d))))
    unfolding lookup_dictionary_entries
    entries_ok words d =
        let rows = lookup_dictionary_entries words d in
        (
          omega (
            arith,
            length-map entry_item (first_entries [] rows),
            length-first_entries [] rows,
            length-take-le 16 (
                stable_sort (sense_less words)
                  (filter (λ e. any (text_eq e.normalized_word) words) d.dictionary)),
          ),
          rw (map-item_key (first_entries [] rows)) (first-AllDistinct [] rows).0,
        )

    -- Where no query fails and the word is one that the word list accepts, the answer has at most 16
    -- entries, for the normal form of the word, and no two of them have the same part of speech and,
    -- in lower case, the same definition.
    pub dictionary-AllDistinct :
        (param normalized : Text) (d : Catalogue)
        → normalize_vocabulary_word param ≡ ok normalized
        → (a : LookupAnswer) × (dictionary works works param d ≡ data_of a)
          × (a.normalized_word ≡ normalized)
          × (length a.entries ≤ 16)
          × AllDistinct (map item_key a.entries)
    unfolding dictionary
    dictionary-AllDistinct param normalized d h =
        let words = dictionary_candidates normalized (list_dictionary_form_lemmas normalized d) in
        let answer : LookupAnswer = record {
          query = param;
          normalized_word = normalized;
          entries = map entry_item (first_entries [] (lookup_dictionary_entries words d));
        } in
        (answer, rw (dictionary, h) refl, refl, (entries_ok words d).0, (entries_ok words d).1)
