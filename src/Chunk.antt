-- ===== src/Chunk.antt =====
-- internal/chunk/cut.go: a note is cut into chunks of at most `chunkSize` runes along its paragraphs.
pub mod Split
pub mod Gather
pub mod Cut
mod Tests
use rag_ai_system.Prelude.{
  ℕ, zero, suc, ◌+◌, ◌*◌, Option, none, some, List, [], ◌∷◌, ◌++◌, ltb, leb, if◌then◌else◌, length,
  take, drop, ℤ, to_nat, is_positive, Result, ok, err,
}
use rag_ai_system.Text.{Text, is_nil, trim_space, newline, scan_lines}

abbrev pub max_buff_size : ℕ
max_buff_size = 10 * 1024 * 1024

pub data CutError : Type 0 where
  invalid_chunk_size : CutError
  line_too_long : CutError  -- bufio.ErrTooLong

-- The loop of splitByRunes; `none` means that the fuel ran out.
pub split_loop : ℕ → Text → ℕ → List Text → Option (List Text)
split_loop zero runes limit parts = none
split_loop (suc fuel) runes limit parts =
    let rest = split_loop fuel (drop limit runes) limit (parts ++ take limit runes ∷ []) in
    if ltb limit (length runes)
    then rest
    else some (if is_nil runes then parts else parts ++ runes ∷ [])

pub split_by_runes : Text → ℕ → Option (List Text)
unfolding split_loop
split_by_runes s limit = split_loop (suc (length s)) s limit []

pub record Paragraphs : Type 0 where
  pub paragraphs : List Text
  pub cur_para : Text

-- The body of `if curPara.Len() > 0 { paragraphs = append(…) }`, in the loop and after it.
pub flush : Paragraphs → Paragraphs
flush st =
    if is_nil st.cur_para
    then st
    else record { paragraphs = st.paragraphs ++ trim_space st.cur_para ∷ []; cur_para = [] }

-- One round of the loop of extractParagraphs.
pub add_line : Paragraphs → Text → Paragraphs
unfolding flush
add_line st line = if is_nil (trim_space line) then flush st else record st {
  cur_para = (if is_nil st.cur_para then [] else st.cur_para ++ newline ∷ []) ++ line;
}

pub add_lines : Paragraphs → List Text → Paragraphs
unfolding add_line
add_lines st [] = st
add_lines st (line ∷ lines) = add_lines (add_line st line) lines

pub extract_paragraphs : Text → Result CutError (List Text)
unfolding add_lines flush
extract_paragraphs text =
    let (lines, failed) = scan_lines max_buff_size text in
    if failed
    then err line_too_long
    else ok (flush (add_lines (record { paragraphs = []; cur_para = [] }) lines)).paragraphs

-- The variables of the loop of Cut.
pub record Builder : Type 0 where
  pub chunks : List Text
  pub current_chunk : Text
  pub current_runes : ℕ

pub emit : Builder → List Text → Builder
emit st parts = record { chunks = st.chunks ++ parts; current_chunk = []; current_runes = 0 }

-- A paragraph that is longer than a chunk: what has been gathered goes first, then its parts.
pub add_long : ℕ → Builder → Text → Option Builder
unfolding emit split_by_runes
add_long chunk_size st p =
    let st' = if ltb 0 st.current_runes then emit st (st.current_chunk ∷ []) else st in
    elim (split_by_runes p chunk_size) [
      | none ↦ none
      | some parts ↦ some (record st' { chunks = st'.chunks ++ parts })
    ]

pub add_short : ℕ → Builder → Text → Builder
add_short chunk_size st p =
    let started = ltb 0 st.current_runes in
    let needed_runes = if started then length p + 2 else length p in
    if leb (st.current_runes + needed_runes) chunk_size
    then record st {
      current_chunk =
          (if started then st.current_chunk ++ newline ∷ newline ∷ [] else st.current_chunk) ++ p;
      current_runes = st.current_runes + needed_runes;
    }
    else record {
      chunks = st.chunks ++ st.current_chunk ∷ [];
      current_chunk = p;
      current_runes = length p;
    }

pub add_paragraph : ℕ → Builder → Text → Option Builder
add_paragraph chunk_size st p =
    if ltb chunk_size (length p) then add_long chunk_size st p else some (add_short chunk_size st p)

pub add_paragraphs : ℕ → Builder → List Text → Option Builder
add_paragraphs chunk_size st [] = some st
add_paragraphs chunk_size st (p ∷ ps) = elim (add_paragraph chunk_size st p) [
  | none ↦ none
  | some st' ↦ add_paragraphs chunk_size st' ps
]

-- `if currentRunes > 0 { chunks = append(…) }` after the loop.
pub last_chunk : Builder → List Text
last_chunk st = if ltb 0 st.current_runes then st.chunks ++ st.current_chunk ∷ [] else st.chunks

pub build : ℕ → List Text → Option (List Text)
unfolding add_paragraphs add_paragraph add_long add_short last_chunk
build chunk_size paragraphs =
    elim (add_paragraphs chunk_size (record { chunks = []; current_chunk = []; current_runes = 0 })
      paragraphs) [ none ↦ none | some st ↦ some (last_chunk st) ]

pub cut_trimmed : ℕ → Text → Option (Result CutError (List Text))
unfolding extract_paragraphs build
cut_trimmed chunk_size text = if is_nil text then some (ok []) else elim (extract_paragraphs text) [
  | err e ↦ some (err e)
  | ok paragraphs ↦ elim (build chunk_size paragraphs) [
    | none ↦ none
    | some chunks ↦ some (ok chunks)
  ]
]

-- `none` would be a call that does not return.
unfoldable pub cut : Text → ℤ → Option (Result CutError (List Text))
unfolding cut_trimmed
cut text chunk_size =
    if is_positive chunk_size
    then cut_trimmed (to_nat chunk_size) (trim_space text)
    else some (err invalid_chunk_size)
