-- ===== src/Publish/Document.antt =====
-- Document, validate and validGrammarPoint (internal/publishing/service.go). The floats of a document
-- (coverage and confidence) are only copied, and are left out.
use el_backend.Database.Table.{any}
use el_backend.Database.{invalid_document, Error}
use el_backend.Text.{
  codes, count, ascii_digit, to_lower, byte_len, text_eq, trim_space, Text, Unicode,
}
use el_backend.Base.{
  ok, guard, all, false, if◌then◌else◌, ◌==◌, leb, ◌&&◌, [], ◌^◌, ◌||◌, ◌∷◌, length, not, Outcome,
  ltb, Option, ◌*◌, Bool, List, ℕ,
}
use el_backend.Base.Int.{negsuc, ltb_ℤ, pos, ℤ}

-- maxAudioBytes
abbrev pub max_audio_bytes : ℕ
max_audio_bytes = 250 * 2 ^ 20

pub record Paragraph : Type 0 where
  pub index : ℤ
  pub text : Text

pub record FeaturedWord : Type 0 where
  pub word : Text
  pub part_of_speech : Text
  pub definition : Text

pub record GrammarPoint : Type 0 where
  pub kind : Text
  pub title : Text
  pub explanation : Text
  pub example : Text
  pub prompt : Text
  pub answer : Text
  pub options : List Text

pub record Sentence : Type 0 where
  pub text : Text
  pub start_ms : Option ℤ
  pub end_ms : Option ℤ
  pub spoken : Bool

pub record Timeline : Type 0 where
  pub version : Text
  pub spoken_sentence_count : ℤ
  pub duration_ms : ℤ
  pub sentences : List Sentence

pub record Audio : Type 0 where
  pub sha256 : Text
  pub byte_size : ℤ
  pub mime_type : Text

pub record Document : Type 0 where
  pub schema_version : ℤ
  pub source_content_id : Text
  pub source : Text
  pub source_url : Text
  pub attribution : Text
  pub manifest_etag : Text
  pub title : Text
  pub description : Text
  pub series : Text
  pub level : Text
  pub topics : List Text
  pub learning_goals : List Text
  pub quality_score : ℤ
  pub word_count : ℤ
  pub published_at : Text
  pub paragraphs : List Paragraph
  pub featured_words : List FeaturedWord
  pub grammar_version : ℤ
  pub grammar_points : List GrammarPoint
  pub timeline : Timeline
  pub audio : Audio

-- strings.TrimSpace(s) == ""
unfoldable pub is_blank : Text → Bool
unfolding trim_space text_eq
is_blank s = text_eq (trim_space s) []

-- `{value, max}` of the table in validGrammarPoint
abbrev pub bad_value : ℕ → Text → Bool
bad_value most s = is_blank s || ltb most (byte_len s)

-- ^[0-9a-f]{64}$
abbrev pub hex_digit : ℕ → Bool
hex_digit c = ascii_digit c || (leb b'a' c && leb c b'f')

unfoldable pub hex_sha256 : Text → Bool
hex_sha256 s = length s == 64 && all hex_digit s

module _ ⦃u : Unicode⦄ where
  -- strings.ToLower(strings.TrimSpace(raw))
  abbrev pub normal_option : Text → Text
  normal_option raw = to_lower (trim_space raw)

  -- the loop over the options: the map `seen` as the list of its keys
  unfoldable pub check_options : Text → List Text → Bool → List Text → Bool
  unfolding to_lower trim_space text_eq byte_len
  check_options answer seen found [] = found
  check_options answer seen found (raw ∷ rest) =
      let option = normal_option raw in
      let others = check_options answer (option ∷ seen) (found || text_eq option answer) rest in
      if text_eq option [] || ltb 100 (byte_len option) || any (text_eq option) seen
      then false
      else others

  unfoldable pub valid_grammar_point : GrammarPoint → Bool
  unfolding is_blank byte_len count text_eq check_options to_lower trim_space
  valid_grammar_point point =
      if bad_value 50 point.kind
        || bad_value 120 point.title
        || bad_value 1000 point.explanation
        || bad_value 1000 point.example
        || bad_value 1000 point.prompt
        || bad_value 100 point.answer
      then false
      else if not (count point.prompt (codes "_____") == 1)
          || text_eq point.prompt point.example
          || ltb (length point.options) 2
          || ltb 6 (length point.options)
      then false
      else check_options (normal_option point.answer) [] false point.options

  abbrev pub bad_grammar : Document → Bool
  bad_grammar d =
      ltb 0 (length d.grammar_points)
      && (ltb_ℤ d.schema_version (pos 2)
          || ltb_ℤ d.grammar_version (pos 1)
          || ltb 8 (length d.grammar_points)
          || not (all valid_grammar_point d.grammar_points))

  abbrev pub bad_audio : Audio → Bool
  bad_audio audio =
      not (ltb_ℤ (pos 0) audio.byte_size)
      || ltb_ℤ (pos max_audio_bytes) audio.byte_size
      || not (text_eq audio.mime_type (codes "audio/mpeg"))
      || not (hex_sha256 audio.sha256)

  abbrev pub is_version : ℤ → ℕ → Bool
  is_version (pos n) k = n == k
  is_version (negsuc n) k = false

  abbrev pub bad_header : Text → Document → Bool
  bad_header key d =
      ltb (byte_len key) 32
      || ltb 128 (byte_len key)
      || (not (is_version d.schema_version 1) && not (is_version d.schema_version 2))
      || is_blank d.source_content_id
      || is_blank d.source
      || is_blank d.source_url
      || is_blank d.manifest_etag
      || is_blank d.title
      || length d.paragraphs == 0
      || length d.timeline.sentences == 0

  unfoldable pub validate : Text → Document → Outcome Error (Unit {0})
  unfolding is_blank byte_len valid_grammar_point hex_sha256 text_eq
  validate key d = guard (bad_header key d) invalid_document (
      guard (not (all (λ w. not (is_blank w.word || is_blank w.definition)) d.featured_words))
        invalid_document
        (guard (bad_grammar d) invalid_document
          (guard (bad_audio d.audio) invalid_document (ok tt))))
