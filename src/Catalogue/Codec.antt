-- ===== src/Catalogue/Codec.antt =====
-- The library functions that the catalogue's code calls: encoding/base64, time, google/uuid, strconv
-- and encoding/json, and the collation of the database, each with what the code relies on.
use el_backend.Base.{ℕ, Bool, true, ◌≡◌, Option, some, List, [], all, not, ◌==◌, ◌≢◌}
use el_backend.Base.Int.{ℤ}
use el_backend.Text.{Text}
use el_backend.Publish.Document.{GrammarPoint, FeaturedWord}

pub record Collation : Type 0 where
  pub text_less : Text → Text → Bool

abbrev pub bar : ℕ
bar = 0x7c

-- base64.RawURLEncoding, time.RFC3339Nano and RFC3339, uuid.UUID.String and Parse, ParseInt and
-- FormatInt. Decoding undoes encoding; neither a time nor an id is written with a bar.
pub record Codec : Type 0 where
  pub encode : Text → Text
  pub decode : Text → Option Text
  pub format_nano : ℕ → Text
  pub format_seconds : ℕ → Text
  pub parse_time : Text → Option ℕ
  pub uuid_string : ℕ → Text
  pub parse_uuid : Text → Option ℕ
  pub format_int : ℤ → Text
  pub parse_int : Text → Option ℤ
  pub decode-encode : (s : Text) → decode (encode s) ≡ some s
  pub encode_nonempty : (s : Text) → s ≢ [] → encode s ≢ []
  pub parse-format_nano : (t : ℕ) → parse_time (format_nano t) ≡ some t
  pub parse-uuid_string : (i : ℕ) → parse_uuid (uuid_string i) ≡ some i
  pub parse-format_int : (z : ℤ) → parse_int (format_int z) ≡ some z
  pub format_int_nonempty : (z : ℤ) → format_int z ≢ []
  pub nano_no_bar : (t : ℕ) → all (λ c. not (c == bar)) (format_nano t) ≡ true
  pub uuid_no_bar : (i : ℕ) → all (λ c. not (c == bar)) (uuid_string i) ≡ true

-- encoding/json on the columns: what Unmarshal gives for the struct of each function, none where it
-- fails; and legacyFeaturedWordPattern, which package regexp matches: its three groups.
pub record Json : Type 0 where
  pub goals_of : Text → Option (List Text × List GrammarPoint)
  pub grammar_of : Text → Option (List GrammarPoint)
  pub featured_of : Text → Option (List FeaturedWord)
  pub block_texts_of : Text → Option (List Text)
  pub match_featured : Text → Option (Text × Text × Text)
