-- ===== src/Embed/OpenAi/Order/Tests.antt =====
-- Two texts whose vectors come back the other way round.
use rag_ai_system.Prelude.{
  ℕ, ◌+◌, ◌≡◌, refl, Option, none, List, [], ◌∷◌, map, arith, ℤ, pos, to_nat, Result, ok,
}
use rag_ai_system.Text.{Text, codes}
use rag_ai_system.Backoff.{Err}
use rag_ai_system.Http.{Response, Exchange, answered, Post}
use rag_ai_system.Embed.{document}
use rag_ai_system.Embed.OpenAi.{Item, OpenAiAnswer, openai_embed}
use rag_ai_system.Embed.OpenAi.Order.{swap, indexes_from, Covers, openai_embed_order}

abbrev no_date : Text → Option ℤ
no_date h = none

abbrev response : Response
response = record { status = pos 200; retry_after = []; body = ok (codes "{}") }

abbrev server : Post (Text × List Text) → ℕ → Exchange × ℕ
server req s = (answered response, s + 1)

abbrev vector : ℤ → List ℕ
vector i = to_nat i ∷ 7 ∷ []

abbrev reversed : List (Item ℕ)
reversed =
    record { index = pos 1; embedding = 1 ∷ 7 ∷ [] }
    ∷ record { index = pos 0; embedding = 0 ∷ 7 ∷ [] }
    ∷ []

abbrev decode : Text → Result Err (OpenAiAnswer ℕ)
decode raw = ok (record { items = reversed; error = none })

covers : Covers vector 2 reversed
covers = record { shuffled = swap (pos 1) (pos 0) []; by_index = (refl, (refl, tt)) }

openai_embed_order_example :
    (openai_embed no_date server decode
      (codes "http://h")
      []
      (codes "m")
      (pos 2)
      (codes "a" ∷ codes "b" ∷ [])
      document
      0).0
    ≡ ok (map vector (indexes_from 0 2))
openai_embed_order_example =
    openai_embed_order no_date server decode vector (codes "http://h") [] (codes "m") (pos 2)
      (codes "a") (codes "b" ∷ []) document 0 response (codes "{}") reversed (omega arith) refl refl
      refl refl (λ i. refl) covers
