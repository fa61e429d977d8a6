-- ===== src/Text/Defs.antt =====
-- Texts, the tables of the package unicode, and the functions of strings and unicode/utf8.
use el_backend.Base.{
  not, ℕ, zero, suc, ◌+◌, ◌-◌, ◌≡◌, Bool, true, false, ◌&&◌, ◌||◌, List, [], ◌∷◌, map, String, ltb,
  leb, ◌==◌, if◌then◌else◌, length, all, ◌<◌,
}
use Prim.Native.Char.{code}

abbrev pub Text : Type 0
Text = List ℕ

-- a literal
abbrev pub codes : String → Text
codes String.[] = []
codes (String.◌∷◌ c s) = code c ∷ codes s

-- unicode.IsSpace
unfoldable pub is_space : ℕ → Bool
is_space c =
    (leb 9 c && leb c 13)
    || c == 0x20
    || c == 0x85
    || c == 0xa0
    || c == 0x1680
    || (leb 0x2000 c && leb c 0x200a)
    || c == 0x2028
    || c == 0x2029
    || c == 0x202f
    || c == 0x205f
    || c == 0x3000

-- strings.TrimSpace, from the left and then from the right
unfoldable pub trim_left : Text → Text
unfolding is_space
trim_left [] = []
trim_left (c ∷ s) = if is_space c then trim_left s else c ∷ s

unfoldable pub keep : ℕ → Text → Text
unfolding is_space
keep c [] = if is_space c then [] else c ∷ []
keep c (d ∷ s) = c ∷ d ∷ s

unfoldable pub trim_right : Text → Text
unfolding keep
trim_right [] = []
trim_right (c ∷ s) = keep c (trim_right s)

unfoldable pub trim_space : Text → Text
unfolding trim_left trim_right
trim_space s = trim_right (trim_left s)

-- utf8.RuneCountInString, and len, the number of bytes
abbrev pub rune_count : Text → ℕ
rune_count = length

abbrev pub rune_len : ℕ → ℕ
rune_len c =
    if ltb c 0x80
    then 1
    else if ltb c 0x800
    then 2
    else if ltb c 0x10000
    then 3
    else if ltb c 0x110000
    then 4
    else 1

unfoldable pub byte_len : Text → ℕ
byte_len [] = 0
byte_len (c ∷ s) = rune_len c + byte_len s

-- utf8.ValidString
unfoldable pub valid_string : Text → Bool
valid_string = all (λ c. ltb c 0xd800 || (leb 0xe000 c && ltb c 0x110000))

-- what PostgreSQL takes as a text: UTF-8 without the character U+0000
unfoldable pub storable : Text → Bool
unfolding valid_string
storable s = valid_string s && all (λ c. not (c == 0)) s

-- s == t
unfoldable pub text_eq : Text → Text → Bool
text_eq [] [] = true
text_eq (c ∷ s) (d ∷ t) = c == d && text_eq s t
text_eq _ _ = false

-- strings.HasPrefix
unfoldable pub has_prefix : Text → Text → Bool
has_prefix s [] = true
has_prefix [] (d ∷ t) = false
has_prefix (c ∷ s) (d ∷ t) = c == d && has_prefix s t

-- strings.Count of a separator that is not empty: `skip` runes still belong to the last match
unfoldable pub count_from : ℕ → Text → Text → ℕ
unfolding has_prefix
count_from skip [] sep = 0
count_from zero (c ∷ s) sep =
    let hit = has_prefix (c ∷ s) sep in
    (if hit then 1 else 0) + count_from (if hit then length sep - 1 else 0) s sep
count_from (suc skip) (c ∷ s) sep = count_from skip s sep

unfoldable pub count : Text → Text → ℕ
unfolding count_from
count s sep = count_from 0 s sep

abbrev pub ascii_upper : ℕ → Bool
ascii_upper c = leb b'A' c && leb c b'Z'

abbrev pub ascii_lower : ℕ → Bool
ascii_lower c = leb b'a' c && leb c b'z'

abbrev pub ascii_digit : ℕ → Bool
ascii_digit c = leb b'0' c && leb c b'9'

-- The tables of the package unicode, with facts of the Unicode standard.
pub record Unicode : Type 0 where
  pub is_letter : ℕ → Bool
  pub is_digit : ℕ → Bool
  pub lower_of : ℕ → ℕ
  pub upper_of : ℕ → ℕ
  pub ascii_is_letter : (c : ℕ) → c < 0x80 → is_letter c ≡ (ascii_upper c || ascii_lower c)
  pub ascii_is_digit : (c : ℕ) → c < 0x80 → is_digit c ≡ ascii_digit c
  pub ascii_lower_of : (c : ℕ) → c < 0x80 → lower_of c ≡ (if ascii_upper c then c + 32 else c)
  pub ascii_upper_of : (c : ℕ) → c < 0x80 → upper_of c ≡ (if ascii_lower c then c - 32 else c)
  -- categories are disjoint, and the white space is in neither of these two
  pub letter_not_space : (c : ℕ) → is_letter c ≡ true → is_space c ≡ false
  pub digit_not_space : (c : ℕ) → is_digit c ≡ true → is_space c ≡ false
  -- a letter is no surrogate
  pub letter_valid :
      (c : ℕ) → is_letter c ≡ true → (ltb c 0xd800 || (leb 0xe000 c && ltb c 0x110000)) ≡ true
  -- the lower case of a letter is a letter, of a digit the digit, of a lower case the same
  pub lower_of_letter : (c : ℕ) → is_letter c ≡ true → is_letter (lower_of c) ≡ true
  pub lower_of_digit : (c : ℕ) → is_digit c ≡ true → lower_of c ≡ c
  pub lower_of-lower_of : (c : ℕ) → lower_of (lower_of c) ≡ lower_of c
  pub lower_of_rune : (c : ℕ) → c < 0x110000 → lower_of c < 0x110000
  -- U+2019 and the replacement character have no case
  pub lower_of_quote : lower_of 0x2019 ≡ 0x2019
  pub lower_of_replacement : lower_of 0xfffd ≡ 0xfffd

module _ ⦃u : Unicode⦄ where
  -- strings.ToLower maps an invalid byte to U+FFFD
  unfoldable pub lower_rune : ℕ → ℕ
  lower_rune c = if ltb c 0x110000 then u.lower_of c else 0xfffd

  unfoldable pub to_lower : Text → Text
  unfolding lower_rune
  to_lower = map lower_rune
