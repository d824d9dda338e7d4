-- ===== src/Rag.antt =====
-- rag/prompt.go: the prompt that is built from the retrieved passages, and the list of their sources.
pub mod Budget
pub mod Unique
mod Tests
use rag_ai_system.Prelude.{
  ℕ, ◌+◌, Bool, false, ◌&&◌, ◌||◌, List, [], ◌∷◌, ◌++◌, ltb, ◌==◌, if◌then◌else◌, length, ℤ, to_nat,
  is_positive,
}
use rag_ai_system.Text.{Text, codes, is_nil, trim_space, text_eq}
use rag_ai_system.Text.Decimal.{decimal, decimal_int}

pub record Passage : Type 0 where
  pub source : Text
  pub title : Text
  pub index : ℤ
  pub text : Text

unfoldable pub ref : Passage → Text
ref p = p.source ++ codes " #" ++ decimal_int p.index

abbrev pub default_max_context_runes : ℕ
default_max_context_runes = 12000

unfoldable pub header : Passage → Text
unfolding ref
header p = if is_nil p.title then ref p else p.title ++ codes " — " ++ ref p

-- One round's fmt.Fprintf; `i` is the loop's index.
unfoldable pub block : ℕ → Passage → Text
unfolding header
block i p =
    codes "["
    ++ decimal (i + 1)
    ++ codes "] "
    ++ header p
    ++ codes "\n"
    ++ trim_space p.text
    ++ codes "\n\n"

pub record Prompt : Type 0 where
  pub written : Text
  pub used : ℕ
  pub included : ℕ

-- utf8.RuneCountInString of the trimmed text.
unfoldable pub cost : Passage → ℕ
cost p = length (trim_space p.text)

-- The loop over the passages, from index `i` on.
unfoldable pub add_passages : ℕ → ℕ → List Passage → Prompt → Prompt
unfolding block cost
add_passages limit i [] b = b
add_passages limit i (p ∷ ps) b =
    let rest = add_passages limit (i + 1) ps (record {
      written = b.written ++ block i p;
      used = b.used + cost p;
      included = b.included + 1;
    }) in
    if ltb 0 b.included && ltb limit (b.used + cost p) then b else rest

abbrev pub context_limit : ℤ → ℕ
context_limit n = if is_positive n then to_nat n else default_max_context_runes

unfoldable pub gathered : List Passage → ℤ → Prompt
unfolding add_passages
gathered passages max_context_runes =
    add_passages (context_limit max_context_runes) 0 passages
      (record { written = codes "Фрагменты из базы знаний:\n\n"; used = 0; included = 0 })

unfoldable pub build_user_prompt : Text → List Passage → ℤ → Text
unfolding gathered
build_user_prompt question passages max_context_runes =
    let b = gathered passages max_context_runes in
    b.written
    ++ (if b.included == 0 then codes "(ничего не найдено)\n\n" else [])
    ++ codes "Вопрос: "
    ++ trim_space question

-- `seen[source]`
unfoldable pub seen_in : Text → List Text → Bool
unfolding text_eq
seen_in s [] = false
seen_in s (t ∷ ts) = text_eq s t || seen_in s ts

-- The loop of Sources: what has been put out is what has been seen.
unfoldable pub add_sources : List Text → List Passage → List Text
unfolding seen_in
add_sources out [] = out
add_sources out (p ∷ ps) =
    add_sources (if seen_in p.source out then out else out ++ p.source ∷ []) ps

unfoldable pub sources : List Passage → List Text
unfolding add_sources
sources passages = add_sources [] passages
