-- ===== src/Text.antt =====
-- The parts of Go's `strings`, `unicode/utf8`, `bufio` and `strconv` that the program uses. A string
-- is the list of its runes, which loses nothing for valid UTF-8; `byte_len` counts its bytes.
pub mod Trim
pub mod Lines
pub mod Decimal
pub mod Utf8
pub mod Url
use Prim.Native.Char.{code}
use rag_ai_system.Prelude.{
  ℕ, ◌+◌, String, Bool, true, false, ◌&&◌, ◌||◌, Option, none, some, List, [], ◌∷◌, ltb, leb, ◌==◌,
  if◌then◌else◌,
}

abbrev pub Text : Type 0
Text = List ℕ

-- The runes of a literal.
abbrev pub codes : String → Text
codes String.[] = []
codes (String.◌∷◌ c s) = code c ∷ codes s

-- unicode.IsSpace
unfoldable pub is_space : ℕ → Bool
is_space c =
    (leb 9 c && leb c 13)
    || c == 0x20
    || c == 0x85
    || c == 0xa0
    || c == 0x1680
    || (leb 0x2000 c && leb c 0x200a)
    || c == 0x2028
    || c == 0x2029
    || c == 0x202f
    || c == 0x205f
    || c == 0x3000

abbrev pub is_nil {ℓ} : {A : Type ℓ} → List A → Bool
is_nil [] = true
is_nil (x ∷ xs) = false

unfoldable pub trim_left : Text → Text
trim_left [] = []
trim_left (c ∷ s) = let rest = trim_left s in if is_space c then rest else c ∷ s

unfoldable pub trim_right : Text → Text
trim_right [] = []
trim_right (c ∷ s) = let rest = trim_right s in if is_space c && is_nil rest then [] else c ∷ rest

-- strings.TrimSpace
unfoldable pub trim_space : Text → Text
trim_space s = trim_left (trim_right s)

-- How many bytes a rune takes in UTF-8.
unfoldable pub utf8_len : ℕ → ℕ
utf8_len c = if ltb c 0x80 then 1 else if ltb c 0x800 then 2 else if ltb c 0x10000 then 3 else 4

-- len(s)
unfoldable pub byte_len : Text → ℕ
byte_len [] = 0
byte_len (c ∷ s) = utf8_len c + byte_len s

-- s == t
unfoldable pub text_eq : Text → Text → Bool
text_eq [] [] = true
text_eq [] (d ∷ t) = false
text_eq (c ∷ s) [] = false
text_eq (c ∷ s) (d ∷ t) = c == d && text_eq s t

abbrev pub newline : ℕ
newline = 10

abbrev pub carriage_return : ℕ
carriage_return = 13

abbrev push : ℕ → List Text → List Text
push c [] = (c ∷ []) ∷ []
push c (l ∷ ls) = (c ∷ l) ∷ ls

-- The lines of a text, without their newlines. What follows the last newline is a line unless it is
-- empty.
unfoldable pub raw_lines : Text → List Text
raw_lines [] = []
raw_lines (c ∷ s) = let rest = raw_lines s in if c == newline then [] ∷ rest else push c rest

-- `dropCR` of bufio: one trailing carriage return goes.
unfoldable pub drop_cr : Text → Text
drop_cr [] = []
drop_cr (c ∷ s) = let rest = drop_cr s in if c == carriage_return && is_nil s then [] else c ∷ rest

-- What `bufio.Scanner` delivers with a buffer of `limit` bytes: the lines before the first that
-- does not fit, and whether there was one (bufio.ErrTooLong).
unfoldable pub fitting : ℕ → List Text → List Text × Bool
unfolding byte_len drop_cr
fitting limit [] = ([], false)
fitting limit (l ∷ ls) =
    let (rest, failed) = fitting limit ls in
    if ltb (byte_len l) limit then (drop_cr l ∷ rest, failed) else ([], true)

unfoldable pub scan_lines : ℕ → Text → List Text × Bool
unfolding fitting raw_lines
scan_lines limit s = fitting limit (raw_lines s)

-- The runes that are no white space, in order.
unfoldable pub visible : Text → Text
visible [] = []
visible (c ∷ s) = let rest = visible s in if is_space c then rest else c ∷ rest

-- strings.HasPrefix and strings.TrimPrefix in one: what follows the prefix.
unfoldable pub after_prefix : Text → Text → Option Text
after_prefix [] s = some s
after_prefix (c ∷ p) [] = none
after_prefix (c ∷ p) (d ∷ s) = if c == d then after_prefix p s else none

-- strings.Contains
unfoldable pub contains : Text → Text → Bool
unfolding after_prefix
contains [] sub = is_nil sub
contains (c ∷ s) sub = elim (after_prefix sub (c ∷ s)) [ some _ ↦ true | none ↦ contains s sub ]

-- strings.HasSuffix
unfoldable pub has_suffix : Text → Text → Bool
unfolding text_eq
has_suffix [] suffix = is_nil suffix
has_suffix (c ∷ s) suffix = if text_eq (c ∷ s) suffix then true else has_suffix s suffix
