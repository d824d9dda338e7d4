-- ===== src/Vault.antt =====
-- internal/vault: the frontmatter of a markdown file, and the pass over the vault.
pub mod Frontmatter
pub mod Scan
mod Tests
use rag_ai_system.Prelude.{
  ℕ, ◌*◌, Bool, true, false, not, ◌&&◌, ◌||◌, Option, none, some, List, [], ◌∷◌, ◌++◌, map, ◌==◌,
  if◌then◌else◌, Result, ok, err,
}
use rag_ai_system.Text.{Text, codes, is_nil, trim_space, text_eq, newline, scan_lines, after_prefix}

abbrev pub max_buff_size : ℕ
max_buff_size = 10 * 1024 * 1024

pub record YamlInfo : Type 0 where
  pub title : Text
  pub body : Text

pub data VaultError : Type 0 where
  unclosed_frontmatter scanner_error walk_error rel_error read_error : VaultError

-- strings.Cut at a colon.
unfoldable pub cut_colon : Text → Option (Text × Text)
cut_colon [] = none
cut_colon (c ∷ s) =
    let rest = cut_colon s in
    if c == b':' then some ([], s) else elim rest [ none ↦ none | some (a, b) ↦ some (c ∷ a, b) ]

abbrev is_quote : ℕ → Bool
is_quote c = c == 34 || c == 39

unfoldable pub trim_quotes_left : Text → Text
trim_quotes_left [] = []
trim_quotes_left (c ∷ s) = let rest = trim_quotes_left s in if is_quote c then rest else c ∷ s

unfoldable pub trim_quotes_right : Text → Text
trim_quotes_right [] = []
trim_quotes_right (c ∷ s) =
    let rest = trim_quotes_right s in if is_quote c && is_nil rest then [] else c ∷ rest

-- The variables of the loop of yamlParser.
pub record Parser : Type 0 where
  pub title : Text
  pub body : Text
  pub found_start : Bool
  pub in_frontmatter : Bool
  pub body_started : Bool

abbrev pub fence : Text
fence = codes "---"

-- `to_lower` is unicode.ToLower on a rune.
module _ (to_lower : ℕ → ℕ) where
  -- The key and the value of a line between the fences.
  unfoldable pub read_key : Text → Text → Text
  unfolding cut_colon trim_quotes_left trim_quotes_right text_eq trim_space
  read_key title line = elim (cut_colon line) [
    | none ↦ title
    | some (key, val) ↦
        if text_eq (map to_lower (trim_space key)) (codes "title")
        then trim_quotes_left (trim_quotes_right (trim_space val))
        else title
  ]

  -- One round of the loop; `none` is the early return of a text with no frontmatter.
  unfoldable pub read_line : Parser → Text → Option Parser
  unfolding read_key
  read_line y raw_line =
      if y.body_started
      then some (record y { body = y.body ++ raw_line ++ newline ∷ [] })
      else if not y.found_start
      then (if text_eq (trim_space raw_line) fence
          then some (record y { found_start = true; in_frontmatter = true })
          else none)
      else if y.in_frontmatter && text_eq (trim_space raw_line) fence
      then some (record y { in_frontmatter = false; body_started = true })
      else if y.in_frontmatter
      then some (record y { title = read_key y.title (trim_space raw_line) })
      else some y

  abbrev pub end_of_lines : Bool → Parser → Result VaultError YamlInfo
  end_of_lines failed y =
      if failed
      then err scanner_error
      else if y.in_frontmatter
      then err unclosed_frontmatter
      else ok (record { title = y.title; body = trim_space y.body })

  unfoldable pub read_lines : Text → Bool → Parser → List Text → Result VaultError YamlInfo
  unfolding read_line
  read_lines text failed y [] = end_of_lines failed y
  read_lines text failed y (l ∷ ls) = elim (read_line y l) [
    | none ↦ ok (record { title = y.title; body = trim_space text })
    | some y' ↦ read_lines text failed y' ls
  ]

  abbrev pub no_lines_yet : Parser
  no_lines_yet = record {
    title = [];
    body = [];
    found_start = false;
    in_frontmatter = false;
    body_started = false;
  }

  abbrev pub without_bom : Text → Text
  without_bom text = elim (after_prefix (0xfeff ∷ []) text) [ none ↦ text | some rest ↦ rest ]

  unfoldable pub yaml_parser : Text → Result VaultError YamlInfo
  unfolding read_lines after_prefix scan_lines
  yaml_parser file =
      let text = without_bom file in
      let (lines, failed) = scan_lines max_buff_size text in
      read_lines text failed no_lines_yet lines

  -- filepath.Ext
  unfoldable pub has_dot_or_slash : Text → Bool
  has_dot_or_slash [] = false
  has_dot_or_slash (c ∷ s) = (c == b'.' || c == b'/') || has_dot_or_slash s

  unfoldable pub ext : Text → Text
  unfolding has_dot_or_slash
  ext [] = []
  ext (c ∷ s) = let rest = ext s in if c == b'.' && not (has_dot_or_slash s) then c ∷ s else rest
