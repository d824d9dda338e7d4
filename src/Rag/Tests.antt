-- ===== src/Rag/Tests.antt =====
-- Two passages of one note under a small budget.
use rag_ai_system.Prelude.{ℕ, ◌<◌, ◌≡◌, ◌⊎◌, List, [], ◌∷◌, ◌++◌, ◌==◌, if◌then◌else◌, take, pos}
use rag_ai_system.Text.{codes, trim_space}
use rag_ai_system.Rag.{Passage, context_limit, build_user_prompt}
use rag_ai_system.Rag.Budget.{entries, total, InBudget, Stops, build_user_prompt_lem}

abbrev two : List Passage
two =
    record { source = codes "a.md"; title = codes "A"; index = pos 0; text = codes "abc" }
    ∷ record { source = codes "a.md"; title = []; index = pos 1; text = codes "defg" }
    ∷ []

build_user_prompt_lem_example :
    (n : ℕ) × (build_user_prompt (codes "q?") two (pos 5)
      ≡ codes "Фрагменты из базы знаний:\n\n"
        ++ entries 1 (take n two)
        ++ (if n == 0 then codes "(ничего не найдено)\n\n" else [])
        ++ codes "Вопрос: "
        ++ trim_space (codes "q?"))
    × InBudget (context_limit (pos 5)) n (total (take n two))
    × Stops (context_limit (pos 5)) two (total (take n two)) n
    × ((0 < n) ⊎ (two ≡ []))
build_user_prompt_lem_example = build_user_prompt_lem (codes "q?") two (pos 5)
