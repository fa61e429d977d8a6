-- ===== src/Catalogue/Dictionary.antt =====
-- GET /dictionary/{word} (internal/httpapi/dictionary.go) over the queries of dictionary.sql.go.
use el_backend.Base.Int.{ltb_ℤ}
use el_backend.Database.Table.{any}
use el_backend.Catalogue.Contents.{data_of, read, validation_error, Response}
use el_backend.Database.{Fault}
use el_backend.Identity.Input.{normalize_vocabulary_word}
use el_backend.Base.Sort.{stable_sort}
use el_backend.Text.Suffix.{cut_last_byte, bytes_of, ends_double, trim_suffix, has_suffix}
use el_backend.Catalogue.Collect.{collect}
use el_backend.Base.{
  ◌+◌, ok, false, suc, err, not, ◌&&◌, true, filter, ◌||◌, take, ◌==◌, if◌then◌else◌, ℕ, ◌∷◌, [],
  ltb, Bool, map, ◌++◌, List,
}
use el_backend.Catalogue.Schema.{Catalogue, DictionaryEntry}
use el_backend.Catalogue.Codec.{Collation}
use el_backend.Text.{codes, byte_len, trim_space, to_lower, Text, Unicode, text_eq}
pub mod Spec

module _ ⦃collation : Collation⦄ where
  -- ListDictionaryFormLemmas
  unfoldable pub list_dictionary_form_lemmas : Text → Catalogue → List Text
  unfolding stable_sort text_eq
  list_dictionary_form_lemmas form d =
      stable_sort collation.text_less
        (map (λ f. f.lemma) (filter (λ f. text_eq f.form form) d.forms))

  -- array_position of a word that is in the array
  unfoldable pub array_position : List Text → Text → ℕ
  unfolding text_eq
  array_position [] w = 1
  array_position (v ∷ vs) w = elim (text_eq v w) [ true ↦ 1 | false ↦ suc (array_position vs w) ]

  -- ORDER BY array_position, sense_rank, part_of_speech, id
  abbrev pub sense_less : List Text → DictionaryEntry → DictionaryEntry → Bool
  sense_less words a b =
      let i = array_position words a.normalized_word in
      let j = array_position words b.normalized_word in
      ltb i j
      || (i == j
          && (ltb_ℤ a.sense_rank b.sense_rank
              || (not (ltb_ℤ b.sense_rank a.sense_rank)
                  && (collation.text_less a.part_of_speech b.part_of_speech
                      || (not (collation.text_less b.part_of_speech a.part_of_speech)
                          && ltb a.id b.id)))))

  -- LookupDictionaryEntries
  unfoldable pub lookup_dictionary_entries : List Text → Catalogue → List DictionaryEntry
  unfolding stable_sort array_position text_eq
  lookup_dictionary_entries words d = take 16 (
      stable_sort (sense_less words)
        (filter (λ e. any (text_eq e.normalized_word) words) d.dictionary))

pub record EntryItem : Type 0 where
  pub word : Text
  pub part_of_speech : Text
  pub definition : Text
  pub examples : List Text
  pub source : Text

pub record LookupAnswer : Type 0 where
  pub query : Text
  pub normalized_word : Text
  pub entries : List EntryItem

-- dictionaryEntryResponse
unfoldable pub entry_item : DictionaryEntry → EntryItem
unfolding text_eq
entry_item e = record {
  word = map (λ c. if c == 0x5f then 0x20 else c) e.word;
  part_of_speech = e.part_of_speech;
  definition = e.definition;
  examples = e.examples;
  source =
      if text_eq e.source (codes "wordnet-3.1")
      then codes "Princeton WordNet 3.1"
      else codes "Learning content";
}

module _ ⦃u : Unicode⦄ where
  -- what appendWord is called with for the plural endings
  abbrev pub when : Bool → List Text → List Text
  when true ws = ws
  when false ws = []

  unfoldable pub plural_bases : Text → List Text
  unfolding has_suffix trim_suffix byte_len
  plural_bases word =
      when (has_suffix word (codes "ies") && ltb 3 (byte_len word))
        ((trim_suffix word (codes "ies") ++ codes "y") ∷ [])
      ++ when (has_suffix word (codes "es") && ltb 2 (byte_len word))
          (trim_suffix word (codes "es") ∷ trim_suffix word (codes "s") ∷ [])
      ++ when (has_suffix word (codes "s") && ltb 1 (byte_len word))
          (trim_suffix word (codes "s") ∷ [])

  -- and for one of the endings "ing" and "ed"
  abbrev pub verb_bases_of : Text → List Text
  verb_bases_of base =
      base
      ∷ (base ++ codes "e")
      ∷ when (not (ltb (byte_len base) 2) && ends_double (bytes_of base)) (cut_last_byte base ∷ [])

  unfoldable pub verb_bases : Text → Text → List Text
  unfolding has_suffix trim_suffix byte_len ends_double bytes_of cut_last_byte
  verb_bases word suffix =
      if not (has_suffix word suffix) || not (ltb (byte_len suffix + 1) (byte_len word))
      then []
      else verb_bases_of (trim_suffix word suffix)

  -- strings.TrimSpace(strings.ToLower(value))
  abbrev pub lower_trimmed : Text → Text
  lower_trimmed value = trim_space (to_lower value)

  -- the calls of appendWord in their order
  unfoldable pub bases : Text → List Text → List Text
  unfolding plural_bases verb_bases
  bases word lemmas =
      word
      ∷ (lemmas
          ++ plural_bases word
          ++ verb_bases word (codes "ing")
          ++ verb_bases word (codes "ed"))

  unfoldable pub dictionary_candidates : Text → List Text → List Text
  unfolding collect bases to_lower trim_space
  dictionary_candidates word lemmas = collect lower_trimmed [] (bases word lemmas)

  -- row.PartOfSpeech + "\x00" + strings.ToLower(row.Definition)
  abbrev pub entry_key : DictionaryEntry → Text
  entry_key e = e.part_of_speech ++ 0 ∷ to_lower e.definition

  -- the loop over the rows, with the keys seen so far
  unfoldable pub first_entries : List Text → List DictionaryEntry → List DictionaryEntry
  unfolding text_eq to_lower
  first_entries seen [] = []
  first_entries seen (e ∷ es) = elim (any (text_eq (entry_key e)) seen) [
    | true ↦ first_entries seen es
    | false ↦ e ∷ first_entries (entry_key e ∷ seen) es
  ]

  module _ ⦃collation : Collation⦄ where
    unfoldable pub dictionary : Fault → Fault → Text → Catalogue → Response LookupAnswer
    unfolding normalize_vocabulary_word list_dictionary_form_lemmas dictionary_candidates
        lookup_dictionary_entries first_entries entry_item
    dictionary first second param d = elim (normalize_vocabulary_word param) [
      | err e ↦ validation_error
      | ok normalized ↦ read first (list_dictionary_form_lemmas normalized d) (λ lemmas.
          read second (lookup_dictionary_entries (dictionary_candidates normalized lemmas) d)
            (λ rows. data_of (record {
              query = param;
              normalized_word = normalized;
              entries = map entry_item (first_entries [] rows);
            })))
    ]
