-- ===== src/Knowledge/Ask/Tests.antt =====
-- A question with one hit, answered.
use rag_ai_system.Prelude.{ℕ, ◌+◌, ◌≡◌, refl, some, List, [], ◌∷◌, map, length, pos, Result, ok}
use rag_ai_system.Text.{codes}
use rag_ai_system.Backoff.{Err}
use rag_ai_system.Rag.{sources}
use rag_ai_system.Embed.{Provider}
use rag_ai_system.Llm.{Generator}
use rag_ai_system.Knowledge.Ask.{Hit, Answer, store_search, passage, ask}

abbrev embedder : Provider ℕ ℕ
embedder = record {
  embed = λ texts kind s. (ok (map (λ t. length t ∷ []) texts), s);
  space = record { provider = codes "fake"; model = codes "m"; dim = pos 1 };
  max_batch = pos 8;
}

abbrev hit : Hit ℕ
hit = record {
  source = codes "a.md";
  title = codes "a";
  index = pos 0;
  text = codes "x";
  score = 7;
}

abbrev nearest : List ℕ → ℕ → ℕ → Result Err (List (Hit ℕ)) × ℕ
nearest v k s = (ok (hit ∷ []), s)

abbrev generator : Generator ℕ
generator = record { generate = λ system user s. (ok (codes "it is x"), s + 1); model = codes "m" }

abbrev answer : Answer ℕ
answer = record {
  text = codes "it is x";
  model = codes "m";
  hits = hit ∷ [];
  sources = sources (map (passage nearest (pos 1) embedder) (hit ∷ []));
  top_score = 7;
}

answered :
    ask nearest (pos 1) embedder (codes "s") 0 (some generator) (codes "q") (pos 3) 0
    ≡ (ok answer, 1)
unfolding ask store_search
answered = refl
