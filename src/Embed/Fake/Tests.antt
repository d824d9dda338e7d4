-- ===== src/Embed/Fake/Tests.antt =====
-- FNV-1a on a word, and the words of a text.
use rag_ai_system.Prelude.{ℕ, ◌≡◌, refl, Bool, not, ◌&&◌, [], ◌∷◌, leb}
use rag_ai_system.Text.{codes}
use rag_ai_system.Embed.Fake.{fnv32a, fields_func}

hash_of_a : fnv32a (codes "a") ≡ 0xe40c292c
unfolding fnv32a
hash_of_a = refl

abbrev is_letter : ℕ → Bool
is_letter c = leb b'a' c && leb c b'z'

words : fields_func (λ c. not (is_letter c)) (codes " go, rag ") ≡ codes "go" ∷ codes "rag" ∷ []
unfolding fields_func
words = refl
