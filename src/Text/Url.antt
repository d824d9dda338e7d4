-- ===== src/Text/Url.antt =====
-- net/url over bytes: percent encoding, and a URL of a scheme, a user with a password, a host, a path
-- and a query.
pub mod Credentials
use rag_ai_system.Prelude.{
  ℕ, ◌+◌, ◌-◌, ◌*◌, ◌/◌, ◌%◌, Bool, ◌&&◌, ◌||◌, Option, none, some, List, [], ◌∷◌, ◌++◌, ltb, leb,
  ◌==◌, if◌then◌else◌,
}
use rag_ai_system.Text.{codes, text_eq}

abbrev pub is_unreserved : ℕ → Bool
is_unreserved c =
    (leb b'a' c && leb c b'z')
    || (leb b'A' c && leb c b'Z')
    || (leb b'0' c && leb c b'9')
    || c == b'-'
    || c == b'_'
    || c == b'.'
    || c == b'~'

-- What shouldEscape leaves alone in a user name or a password.
abbrev pub keeps_user : ℕ → Bool
keeps_user c =
    is_unreserved c || c == b'$' || c == b'&' || c == b'+' || c == b',' || c == b';' || c == b'='

abbrev pub keeps_path : ℕ → Bool
keeps_path c = keeps_user c || c == b'/' || c == b':' || c == b'@'

abbrev pub keeps_host : ℕ → Bool
keeps_host c =
    keeps_user c
    || c == b'!'
    || c == 39
    || c == b'('
    || c == b')'
    || c == b'*'
    || c == b':'
    || c == b'['
    || c == b']'
    || c == b'<'
    || c == b'>'
    || c == 34

abbrev pub percent : ℕ
percent = b'%'

unfoldable pub upper_hex : ℕ → ℕ
upper_hex n = if ltb n 10 then 48 + n else 55 + n

abbrev pub escape_byte : (ℕ → Bool) → ℕ → List ℕ
escape_byte keeps b =
    if keeps b then b ∷ [] else percent ∷ upper_hex (b / 16) ∷ upper_hex (b % 16) ∷ []

-- escape
unfoldable pub escape : (ℕ → Bool) → List ℕ → List ℕ
unfolding upper_hex
escape keeps [] = []
escape keeps (b ∷ bs) = escape_byte keeps b ++ escape keeps bs

-- QueryEscape
unfoldable pub query_escape : List ℕ → List ℕ
unfolding upper_hex
query_escape [] = []
query_escape (b ∷ bs) =
    (if b == 32 then b'+' ∷ [] else escape_byte is_unreserved b) ++ query_escape bs

unfoldable pub unhex : ℕ → Option ℕ
unhex c =
    if leb b'0' c && leb c b'9'
    then some (c - 48)
    else if leb b'a' c && leb c b'f'
    then some (c - 87)
    else if leb b'A' c && leb c b'F'
    then some (c - 55)
    else none

abbrev pub hex_pair : Option ℕ → Option ℕ → Option (List ℕ) → Option (List ℕ)
hex_pair (some h) (some l) (some rest) = some ((h * 16 + l) ∷ rest)
hex_pair _ _ _ = none

abbrev pub with_head : ℕ → Option (List ℕ) → Option (List ℕ)
with_head c none = none
with_head c (some rest) = some (c ∷ rest)

-- unescape of a user name or a password.
unfoldable pub unescape : List ℕ → Option (List ℕ)
unfolding unhex
unescape [] = some []
unescape (c ∷ []) = if c == percent then none else some (c ∷ [])
unescape (c ∷ a ∷ []) = if c == percent then none else with_head c (unescape (a ∷ []))
unescape (c ∷ a ∷ b ∷ s) =
    let coded = unescape s in
    let plain_rest = unescape (a ∷ b ∷ s) in
    if c == percent then hex_pair (unhex a) (unhex b) coded else with_head c plain_rest

-- The bytes before the first one that `stops`, and those after it.
abbrev pub before : (ℕ → Bool) → List ℕ → List ℕ
before stops [] = []
before stops (c ∷ s) = let rest = before stops s in if stops c then [] else c ∷ rest

abbrev pub after : (ℕ → Bool) → List ℕ → List ℕ
after stops [] = []
after stops (c ∷ s) = let rest = after stops s in if stops c then s else rest

-- The bytes before the last `sep`, if there is one.
abbrev pub before_last : ℕ → List ℕ → Option (List ℕ)
before_last sep [] = none
before_last sep (c ∷ s) = elim (before_last sep s) [
  | some rest ↦ some (c ∷ rest)
  | none ↦ if c == sep then some [] else none
]

abbrev pub strip_prefix : List ℕ → List ℕ → Option (List ℕ)
strip_prefix [] s = some s
strip_prefix (p ∷ ps) [] = none
strip_prefix (p ∷ ps) (c ∷ s) = let rest = strip_prefix ps s in if c == p then rest else none

-- A postgres URL without a fragment and with a query, in bytes.
pub record Url : Type 0 where
  pub user : List ℕ
  pub password : List ℕ
  pub host : List ℕ
  pub path : List ℕ
  pub raw_query : List ℕ

abbrev pub scheme : List ℕ
scheme = codes "postgres://"

-- EscapedPath, after the slash that String puts before a relative path.
abbrev pub rooted : List ℕ → List ℕ
rooted [] = []
rooted (c ∷ p) =
    if text_eq (c ∷ p) (b'*' ∷ [])
    then b'/' ∷ b'*' ∷ []
    else if c == b'/'
    then escape keeps_path (c ∷ p)
    else b'/' ∷ escape keeps_path (c ∷ p)

-- URL.String
unfoldable pub show_url : Url → List ℕ
unfolding escape text_eq
show_url u =
    scheme
    ++ (escape keeps_user u.user
        ++ (b':'
            ∷ (escape keeps_user u.password
                ++ (b'@' ∷ (escape keeps_host u.host ++ (rooted u.path ++ (b'?' ∷ u.raw_query)))))))

-- What ends the authority of a URL.
abbrev pub ends_authority : ℕ → Bool
ends_authority c = c == b'/' || c == b'?' || c == b'#'

abbrev pub is_colon : ℕ → Bool
is_colon c = c == b':'

abbrev pub both : Option (List ℕ) → Option (List ℕ) → Option (List ℕ × List ℕ)
both (some a) (some b) = some (a, b)
both _ _ = none

abbrev pub read_user_info : Option (List ℕ) → Option (List ℕ × List ℕ)
read_user_info none = none
read_user_info (some info) = both (unescape (before is_colon info)) (unescape (after is_colon info))

-- The user and the password that Parse reads, unless it refuses the host.
unfoldable pub read_credentials : List ℕ → Option (List ℕ × List ℕ)
unfolding unescape
read_credentials s = elim (strip_prefix scheme s) [
  | none ↦ none
  | some rest ↦ read_user_info (before_last b'@' (before ends_authority rest))
]
