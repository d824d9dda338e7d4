-- ===== src/Text/Utf8.antt =====
-- The bytes of a Go string, whose runes a text lists.
use rag_ai_system.Prelude.{
  ℕ, ◌+◌, ◌-◌, ◌*◌, ◌/◌, ◌%◌, ◌<◌, Bool, true, false, ◌&&◌, ◌||◌, List, [], ◌∷◌, ◌++◌, arith, ltb,
  leb, ◌==◌, if◌then◌else◌, All, All-append,
}
use rag_ai_system.Text.{Text, is_space}

-- The bytes of a rune in UTF-8.
abbrev pub utf8 : ℕ → List ℕ
utf8 c =
    if ltb c 0x80
    then c ∷ []
    else if ltb c 0x800
    then (0xc0 + c / 64) ∷ (0x80 + c % 64) ∷ []
    else if ltb c 0x1_0000
    then (0xe0 + c / 4096) ∷ (0x80 + c / 64 % 64) ∷ (0x80 + c % 64) ∷ []
    else (0xf0 + c / 262144) ∷ (0x80 + c / 4096 % 64) ∷ (0x80 + c / 64 % 64) ∷ (0x80 + c % 64) ∷ []

unfoldable pub bytes : Text → List ℕ
bytes [] = []
bytes (c ∷ s) = utf8 c ++ bytes s

-- A code point of Unicode.
abbrev pub IsRune : ℕ → Type 0
IsRune c = c < 0x11_0000

abbrev pub IsByte : ℕ → Type 0
IsByte b = b < 256

utf8-IsByte : (c : ℕ) → IsRune c → All IsByte (utf8 c)
utf8-IsByte c h = ground arith

pub bytes-IsByte : (s : Text) → All IsRune s → All IsByte (bytes s)
unfolding bytes
bytes-IsByte [] h = tt
bytes-IsByte (c ∷ s) (h, hs) =
    All-append IsByte (utf8 c) (bytes s) (utf8-IsByte c h) (bytes-IsByte s hs)

-- A space of one, two or three bytes.
abbrev pub is_space_of_two : ℕ → ℕ → Bool
is_space_of_two a b = a == 0xc2 && (b == 0x85 || b == 0xa0)

abbrev pub is_space_of_three : ℕ → ℕ → ℕ → Bool
is_space_of_three a b c =
    (leb 0xe1 a && leb a 0xe3)
    && (leb 0x80 b && leb b 0xbf)
    && (leb 0x80 c && leb c 0xbf)
    && is_space ((a - 0xe0) * 4096 + (b - 0x80) * 64 + (c - 0x80))

-- strings.TrimSpace(s) == "", on the bytes of a string.
unfoldable pub is_blank_bytes : List ℕ → Bool
unfolding is_space
is_blank_bytes [] = true
is_blank_bytes (a ∷ []) = ltb a 0x80 && is_space a
is_blank_bytes (a ∷ b ∷ []) =
    let one = is_blank_bytes (b ∷ []) in
    if ltb a 0x80 && is_space a then one else is_space_of_two a b
is_blank_bytes (a ∷ b ∷ c ∷ s) =
    let one = is_blank_bytes (b ∷ c ∷ s) in
    let two = is_blank_bytes (c ∷ s) in
    let three = is_blank_bytes s in
    if ltb a 0x80 && is_space a
    then one
    else if is_space_of_two a b
    then two
    else if is_space_of_three a b c
    then three
    else false
