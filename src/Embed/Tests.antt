-- ===== src/Embed/Tests.antt =====
-- A provider that answers by itself, one that is always overloaded, and a digest of zeros.
use rag_ai_system.Prelude.{
  ℕ, ◌+◌, ◌≤◌, ◌≡◌, refl, ◌&&◌, none, List, [], ◌∷◌, map, arith, leb, if◌then◌else◌, length, pos,
  ok,
}
use rag_ai_system.Text.{Text, codes, is_space, trim_left, trim_right, trim_space}
use rag_ai_system.Embed.{
  document, Space, show_space, validate, is_slug_char, trim_underscores_left,
  trim_underscores_right, hex_digit, slug, Provider, batched,
}
use rag_ai_system.Text.Decimal.{digits, decimal_int}
use rag_ai_system.Embed.Slug.{IsIdentifier, IsDigest, slug-IsIdentifier}
use rag_ai_system.Embed.Batches.{Gives, batched-Pointwise}

abbrev space : Space
space = record { provider = codes "google"; model = codes "gemini"; dim = pos 768 }

abbrev vector : Text → List ℕ
vector t = length t ∷ []

abbrev pairs : Provider ℕ ℕ
pairs = record {
  embed = λ texts kind s. (ok (map vector texts), s + 1);
  space = space;
  max_batch = pos 2;
}

abbrev three : List Text
three = codes "a" ∷ codes "bc" ∷ codes "d" ∷ []

batched-Pointwise_example : Gives pairs document (map vector three) (batched pairs three document 0)
batched-Pointwise_example = batched-Pointwise pairs document vector (λ batch s h. refl) three 0

abbrev zeros : Text → List ℕ
zeros s =
    0 ∷ 0 ∷ 0 ∷ 0 ∷ 0 ∷ 0 ∷ 0 ∷ 0 ∷ 0 ∷ 0 ∷ 0 ∷ 0 ∷ 0 ∷ 0 ∷ 0 ∷ 0 ∷ 0 ∷ 0 ∷ 0 ∷ 0 ∷ 0 ∷ 0 ∷ 0 ∷ 0
    ∷ 0 ∷ 0 ∷ 0 ∷ 0 ∷ 0 ∷ 0 ∷ 0 ∷ 0 ∷ []

abbrev lower : ℕ → ℕ
lower c = if leb b'A' c && leb c b'Z' then c + 32 else c

zeros-IsDigest : IsDigest lower zeros
zeros-IsDigest s = (refl, ground arith)

space_valid : validate space ≡ none
unfolding validate trim_space rag_ai_system.Text.trim_left rag_ai_system.Text.trim_right
    rag_ai_system.Text.is_space
space_valid = refl

slug-IsIdentifier_example :
    IsIdentifier (slug lower zeros space) × (length (slug lower zeros space) ≤ 54)
slug-IsIdentifier_example = slug-IsIdentifier lower zeros zeros-IsDigest space space_valid

abbrev shouted : Space
shouted = record { provider = codes "Google"; model = codes "Gemini"; dim = pos 768 }

same_slug : slug lower zeros space ≡ slug lower zeros shouted
unfolding slug hex_digit show_space is_slug_char trim_underscores_left trim_underscores_right
    decimal_int digits
same_slug = refl
