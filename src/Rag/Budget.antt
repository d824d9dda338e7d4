-- ===== src/Rag/Budget.antt =====
-- Which passages a prompt holds.
use rag_ai_system.Prelude.{
  ℕ, suc, ◌+◌, ◌≤◌, ◌<◌, ◌≡◌, refl, sym, ap, ◌∙◌, ◌⊎◌, inl, inr, ◌&&◌, some, List, [], ◌∷◌, ◌++◌,
  append-nil, append_assoc, arith, ltb, ◌==◌, if◌then◌else◌, ltb→lt, Bool-cases, &&-eq_true, length,
  get_elem?, take, ℤ,
}
use rag_ai_system.Text.{Text, codes, is_nil, trim_space}
use rag_ai_system.Text.Decimal.{decimal, decimal_int}
use rag_ai_system.Rag.{
  Passage, ref, header, block, Prompt, cost, add_passages, context_limit, build_user_prompt,
}

-- The heading of a passage: its title, where it has one, and its reference.
abbrev pub caption : Passage → Text
caption p =
    (if is_nil p.title then [] else p.title ++ codes " — ")
    ++ (p.source ++ codes " #" ++ decimal_int p.index)

-- A passage as it is to be read: a line with its number and heading, its trimmed text, an empty line.
abbrev pub entry : ℕ → Passage → Text
entry k p =
    codes "["
    ++ decimal k
    ++ codes "] "
    ++ caption p
    ++ codes "\n"
    ++ trim_space p.text
    ++ codes "\n\n"

-- The passages, numbered from `k` on.
abbrev pub entries : ℕ → List Passage → Text
entries k [] = []
entries k (p ∷ ps) = entry k p ++ entries (k + 1) ps

header-caption : (p : Passage) → header p ≡ caption p
unfolding header ref
header-caption p = elim (Bool-cases (is_nil p.title)) [ inl e ↦ rw e refl | inr e ↦ rw e refl ]

block-entry : (i : ℕ) (p : Passage) → block i p ≡ entry (i + 1) p
unfolding block
block-entry i p = rw (header-caption p) refl

-- The runes of the trimmed texts.
abbrev pub total : List Passage → ℕ
total [] = 0
total (p ∷ ps) = length (trim_space p.text) + total ps

-- The budget: only a first passage may pass it.
abbrev pub InBudget : ℕ → ℕ → ℕ → Type 0
InBudget limit n used = (n ≤ 1) ⊎ (used ≤ limit)

-- All passages are in, or the next one does not fit.
abbrev pub Stops : ℕ → List Passage → ℕ → ℕ → Type 0
Stops limit ps used n =
    (n ≡ length ps)
    ⊎ ((q : Passage) × (get_elem? ps n ≡ some q) × (limit < used + length (trim_space q.text)))

-- The run from `b` on wrote the first `n` passages.
abbrev Takes : ℕ → ℕ → List Passage → Prompt → Prompt → ℕ → Type 0
Takes limit i ps b out n =
    (out.written ≡ b.written ++ entries (i + 1) (take n ps))
    × (out.used ≡ b.used + total (take n ps))
    × (out.included ≡ b.included + n)
    × InBudget limit out.included out.used
    × Stops limit ps out.used n
    × ((0 < n) ⊎ (0 < b.included) ⊎ (ps ≡ []))

taken :
    (limit i : ℕ) (p : Passage) (ps : List Passage) (b out : Prompt) (n : ℕ)
    → Takes limit
        (i + 1)
        ps
        (record {
          written = b.written ++ block i p;
          used = b.used + cost p;
          included = b.included + 1;
        })
        out
        n
    → Takes limit i (p ∷ ps) b out (suc n)
unfolding cost
taken limit i p ps b out n (w, u, c, budget, stops, some_in) = (
  w
      ∙ append_assoc b.written (block i p) (entries (i + 1 + 1) (take n ps))
      ∙ ap (λ e. b.written ++ (e ++ entries (i + 1 + 1) (take n ps))) (block-entry i p),
  omega (arith, u),
  omega (arith, c),
  budget,
  elim stops [ inl all ↦ inl (ap suc all) | inr more ↦ inr more ],
  inl (omega arith),
)

add_passages-Takes :
    (limit i : ℕ) (ps : List Passage) (b : Prompt)
    → InBudget limit b.included b.used
    → (n : ℕ) × Takes limit i ps b (add_passages limit i ps b) n
unfolding add_passages cost
add_passages-Takes limit i [] b h =
    (0, (sym (append-nil b.written), omega arith, omega arith, h, inl refl, inr (inr refl)))
add_passages-Takes limit i (p ∷ ps) b h =
    elim (Bool-cases (ltb 0 b.included && ltb limit (b.used + cost p))) [
      | inl over ↦ rw over (
        0,
        (
          sym (append-nil b.written),
          omega arith,
          omega arith,
          h,
          inr (
            p,
            refl,
            ltb→lt _ _ (&&-eq_true (ltb 0 b.included) (ltb limit (b.used + cost p)) over).1,
          ),
          inr (
              inl
                (ltb→lt _ _ (&&-eq_true (ltb 0 b.included) (ltb limit (b.used + cost p)) over).0)),
        ),
      )
      | inr fits ↦ rw fits (
          let b' : Prompt = record {
            written = b.written ++ block i p;
            used = b.used + cost p;
            included = b.included + 1;
          } in
          let (n, t) = add_passages-Takes limit (i + 1) ps b' (ground (arith, fits)) in
          (suc n, taken limit i p ps b _ n t))
    ]

-- The prompt holds as many of the first passages as the budget of runes allows, numbered from 1; the
-- first passage is always in, and it alone may pass the budget. With no passage the prompt says that
-- nothing was found, and the trimmed question comes last.
pub build_user_prompt_lem :
    (question : Text) (passages : List Passage) (max_context_runes : ℤ)
    → (n : ℕ) × (build_user_prompt question passages max_context_runes
        ≡ codes "Фрагменты из базы знаний:\n\n"
          ++ entries 1 (take n passages)
          ++ (if n == 0 then codes "(ничего не найдено)\n\n" else [])
          ++ codes "Вопрос: "
          ++ trim_space question)
      × InBudget (context_limit max_context_runes) n (total (take n passages))
      × Stops (context_limit max_context_runes) passages (total (take n passages)) n
      × ((0 < n) ⊎ (passages ≡ []))
unfolding build_user_prompt
build_user_prompt_lem question passages m =
    let start : Prompt = record {
      written = codes "Фрагменты из базы знаний:\n\n";
      used = 0;
      included = 0;
    } in
    let (n, (w, u, c, budget, stops, some_in)) =
      add_passages-Takes (context_limit m) 0 passages start (inl (omega arith)) in
    let count : (add_passages (context_limit m) 0 passages start).included ≡ n = omega (arith, c) in
    let spent : (add_passages (context_limit m) 0 passages start).used ≡ total (take n passages) =
      omega (arith, u) in
    (
      n,
      rw (w, count),
      rw (← spent, ← count) budget,
      rw (← spent) stops,
      elim some_in [
        | inl h ↦ inl h
        | inr (inl h) ↦ absurd (omega (arith, h))
        | inr (inr e) ↦ inr e
      ],
    )
