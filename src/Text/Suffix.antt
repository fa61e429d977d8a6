-- ===== src/Text/Suffix.antt =====
-- strings.HasSuffix and strings.TrimSuffix, and the bytes of a text.
use el_backend.Base.{
  ◌%◌, drop, ◌&&◌, ◌/◌, ◌-◌, ◌+◌, ◌==◌, length, map, false, ◌++◌, [], take, ltb, leb, ◌∷◌,
  if◌then◌else◌, Bool, List, ℕ,
}
use el_backend.Text.Defs.{text_eq, Text}

unfoldable pub has_suffix : Text → Text → Bool
unfolding text_eq
has_suffix s t = leb (length t) (length s) && text_eq (drop (length s - length t) s) t

unfoldable pub trim_suffix : Text → Text → Text
unfolding has_suffix
trim_suffix s t = if has_suffix s t then take (length s - length t) s else s

-- the bytes of a rune in UTF-8; a number from 0x110000 on is a byte alone
unfoldable pub rune_bytes : ℕ → List ℕ
rune_bytes c =
    if ltb c 0x80
    then c ∷ []
    else if ltb c 0x800
    then (0xc0 + c / 0x40) ∷ (0x80 + c % 0x40) ∷ []
    else if ltb c 0x10000
    then (0xe0 + c / 0x1000) ∷ (0x80 + c / 0x40 % 0x40) ∷ (0x80 + c % 0x40) ∷ []
    else if ltb c 0x110000
    then (0xf0 + c / 0x40000)
      ∷ (0x80 + c / 0x1000 % 0x40)
      ∷ (0x80 + c / 0x40 % 0x40)
      ∷ (0x80 + c % 0x40)
      ∷ []
    else (c - 0x110000) ∷ []

unfoldable pub bytes_of : Text → List ℕ
unfolding rune_bytes
bytes_of [] = []
bytes_of (c ∷ s) = rune_bytes c ++ bytes_of s

-- base[len(base)-1] == base[len(base)-2]
unfoldable pub ends_double : List ℕ → Bool
ends_double [] = false
ends_double (a ∷ []) = false
ends_double (a ∷ b ∷ []) = a == b
ends_double (a ∷ b ∷ c ∷ s) = ends_double (b ∷ c ∷ s)

abbrev pub all_but_last : List ℕ → List ℕ
all_but_last [] = []
all_but_last (a ∷ []) = []
all_but_last (a ∷ b ∷ s) = a ∷ all_but_last (b ∷ s)

-- base[:len(base)-1]: of a rune that is cut, the bytes that are left stand alone
unfoldable pub cut_last_byte : Text → Text
unfolding rune_bytes
cut_last_byte [] = []
cut_last_byte (c ∷ []) = map (λ b. 0x110000 + b) (all_but_last (rune_bytes c))
cut_last_byte (c ∷ d ∷ s) = c ∷ cut_last_byte (d ∷ s)
