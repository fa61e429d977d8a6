-- ===== src/Text/Ascii.antt =====
-- The Unicode tables of the first 128 code points, the others without letters: a value of `Unicode`.
use el_backend.Base.{
  ◌&&◌, leb, ltb, refl, false, ◌||◌, ◌+◌, ◌-◌, true, arith, ◌≡◌, if◌then◌else◌, Bool, ◌<◌, ℕ,
}
use el_backend.Text.Defs.{ascii_lower, ascii_upper, ascii_digit, Unicode, is_space}

abbrev pub ascii_letter : ℕ → Bool
ascii_letter c = ascii_upper c || ascii_lower c

abbrev pub ascii_lower_of : ℕ → ℕ
ascii_lower_of c = if ascii_upper c then c + 32 else c

abbrev pub ascii_upper_of : ℕ → ℕ
ascii_upper_of c = if ascii_lower c then c - 32 else c

pub letter_not_space : (c : ℕ) → ascii_letter c ≡ true → is_space c ≡ false
unfolding is_space
letter_not_space c h = ground arith

pub digit_not_space : (c : ℕ) → ascii_digit c ≡ true → is_space c ≡ false
unfolding is_space
digit_not_space c h = ground arith

pub lower_of_letter : (c : ℕ) → ascii_letter c ≡ true → ascii_letter (ascii_lower_of c) ≡ true
lower_of_letter c h = ground arith

pub lower_of_digit : (c : ℕ) → ascii_digit c ≡ true → ascii_lower_of c ≡ c
lower_of_digit c h = ground arith

pub lower_of_idem : (c : ℕ) → ascii_lower_of (ascii_lower_of c) ≡ ascii_lower_of c
lower_of_idem c = ground arith

pub lower_of_rune : (c : ℕ) → c < 0x110000 → ascii_lower_of c < 0x110000
lower_of_rune c h = ground arith

pub letter_valid :
    (c : ℕ) → ascii_letter c ≡ true → (ltb c 0xd800 || (leb 0xe000 c && ltb c 0x110000)) ≡ true
letter_valid c h = ground arith

instance abbrev pub ascii : Unicode
ascii = record {
  is_letter = ascii_letter;
  is_digit = ascii_digit;
  lower_of = ascii_lower_of;
  upper_of = ascii_upper_of;
  ascii_is_letter = λ c h. refl;
  ascii_is_digit = λ c h. refl;
  ascii_lower_of = λ c h. refl;
  ascii_upper_of = λ c h. refl;
  letter_not_space = letter_not_space;
  digit_not_space = digit_not_space;
  letter_valid = letter_valid;
  lower_of_letter = lower_of_letter;
  lower_of_digit = lower_of_digit;
  lower_of-lower_of = lower_of_idem;
  lower_of_rune = lower_of_rune;
  lower_of_quote = refl;
  lower_of_replacement = refl;
}
