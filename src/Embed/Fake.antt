-- ===== src/Embed/Fake.antt =====
-- embed/fake.go: the offline provider, which hashes words to coordinates.
mod Tests
use Prim.Native.Nat.{bit_xor}
use rag_ai_system.Prelude.{
  ℕ, zero, suc, ◌*◌, ◌%◌, ◌^◌, ◌≡◌, refl, ap, ◌∙◌, inl, inr, Bool, true, not, Option, none, some,
  List, [], ◌∷◌, map, leb, if◌then◌else◌, ==_iff, Option-cases, length, length-map, All, ℤ, pos,
  to_nat, is_positive, Result, ok, err,
}
use rag_ai_system.Text.{Text, codes}
use rag_ai_system.Text.Utf8.{bytes}
use rag_ai_system.Backoff.{Err}
use rag_ai_system.Embed.{Kind, Space, validate, Provider}
use rag_ai_system.Embed.Contract.{space_error, validate_dim, HasDim, Fits, Builds}
use rag_ai_system.Embed.Floats.{FloatOps, normalize, length-normalize}

abbrev pub fake_name : Text
fake_name = codes "fake"

-- hash/fnv.New32a
unfoldable pub fnv_from : ℕ → List ℕ → ℕ
fnv_from h [] = h
fnv_from h (b ∷ bs) = fnv_from ((bit_xor h b * 16777619) % 2 ^ 32) bs

unfoldable pub fnv32a : Text → ℕ
unfolding fnv_from bytes
fnv32a s = fnv_from 2166136261 (bytes s)

abbrev push_word : Text → List Text → List Text
push_word [] ws = ws
push_word (c ∷ w) ws = (c ∷ w) ∷ ws

-- strings.FieldsFunc: the longest runs of runes that are no separators.
abbrev split_words : (ℕ → Bool) → Text → Text × List Text
split_words sep [] = ([], [])
split_words sep (c ∷ s) =
    let (word, words) = split_words sep s in
    if sep c then ([], push_word word words) else (c ∷ word, words)

unfoldable pub fields_func : (ℕ → Bool) → Text → List Text
fields_func sep s = let (word, words) = split_words sep s in push_word word words

-- `is_word` is unicode.IsLetter or unicode.IsDigit; `ctx_err` is the context.
module _ {F D S : Type 0} (ops : FloatOps F D) (to_lower : ℕ → ℕ) (is_word : ℕ → Bool)
    (ctx_err : S → Option Err) where
  unfoldable pub tokenize : Text → List Text
  unfolding fields_func
  tokenize text = fields_func (λ r. not (is_word r)) (map to_lower text)

  unfoldable pub zeros : ℕ → List F
  zeros zero = []
  zeros (suc n) = ops.zero32 ∷ zeros n

  -- v[idx]-- or v[idx]++.
  unfoldable pub bump : Bool → ℕ → List F → List F
  bump down i [] = []
  bump down zero (x ∷ v) = (if down then ops.decr x else ops.incr x) ∷ v
  bump down (suc i) (x ∷ v) = x ∷ bump down i v

  unfoldable pub add_token : ℕ → Text → List F → List F
  unfolding fnv32a bump
  add_token dim token v = let sum = fnv32a token in bump (leb (2 ^ 31) sum) (sum % dim) v

  unfoldable pub add_tokens : ℕ → List Text → List F → List F
  unfolding add_token
  add_tokens dim [] v = v
  add_tokens dim (token ∷ tokens) v = add_tokens dim tokens (add_token dim token v)

  unfoldable pub embed_text : ℕ → Text → List F
  unfolding tokenize zeros add_tokens normalize
  embed_text dim text = normalize ops (add_tokens dim (tokenize text) (zeros dim))

  unfoldable pub fake_embed : Space → List Text → Kind → S → Result Err (List (List F)) × S
  unfolding embed_text
  fake_embed space [] kind s = (ok [], s)
  fake_embed space (t ∷ ts) kind s = elim (ctx_err s) [
    | some e ↦ (err e, s)
    | none ↦ (ok (map (embed_text (to_nat space.dim)) (t ∷ ts)), s)
  ]

  abbrev pub fake_space : ℤ → Space
  fake_space dim = record { provider = fake_name; model = codes "hashing-trick"; dim = dim }

  -- NewFake
  unfoldable pub new_fake : ℤ → Result Err (Provider F S)
  unfolding validate fake_embed
  new_fake dim = elim (validate (fake_space dim)) [
    | some e ↦ err (space_error e)
    | none ↦ ok (record {
      embed = fake_embed (fake_space dim);
      space = fake_space dim;
      max_batch = pos 1024;
    })
  ]

  length-bump : (down : Bool) (i : ℕ) (v : List F) → length (bump down i v) ≡ length v
  unfolding bump
  length-bump down i [] = refl
  length-bump down zero (x ∷ v) = refl
  length-bump down (suc i) (x ∷ v) = ap suc (length-bump down i v)

  length-add_tokens :
      (dim : ℕ) (tokens : List Text) (v : List F) → length (add_tokens dim tokens v) ≡ length v
  unfolding add_tokens add_token
  length-add_tokens dim [] v = refl
  length-add_tokens dim (token ∷ tokens) v =
      length-add_tokens dim tokens (add_token dim token v)
      ∙ length-bump (leb (2 ^ 31) (fnv32a token)) (fnv32a token % dim) v

  length-zeros : (n : ℕ) → length (zeros n) ≡ n
  unfolding zeros
  length-zeros zero = refl
  length-zeros (suc n) = ap suc (length-zeros n)

  length-embed_text : (dim : ℕ) (text : Text) → length (embed_text dim text) ≡ dim
  unfolding embed_text
  length-embed_text dim text =
      length-normalize ops (add_tokens dim (tokenize text) (zeros dim))
      ∙ length-add_tokens dim (tokenize text) (zeros dim)
      ∙ length-zeros dim

  map-embed_text-HasDim :
      (dim : ℤ) (texts : List Text)
      → is_positive dim ≡ true
      → All (HasDim dim) (map (embed_text (to_nat dim)) texts)
  map-embed_text-HasDim dim [] h = tt
  map-embed_text-HasDim dim (t ∷ ts) h = (
    rw (h, (==_iff _ _).1 (length-embed_text (to_nat dim) t)) refl,
    map-embed_text-HasDim dim ts h,
  )

  fake_embed-Fits :
      (space : Space)
      → is_positive space.dim ≡ true
      → (texts : List Text) (kind : Kind) (s : S)
      → Fits space.dim (length texts) (fake_embed space texts kind s).0
  unfolding fake_embed
  fake_embed-Fits space h [] kind s = (refl, tt)
  fake_embed-Fits space h (t ∷ ts) kind s = elim (Option-cases (ctx_err s)) [
    | inr (x, e) ↦ rw (e, Fits) tt
    | inl e ↦
        rw (e, Fits)
          (
            length-map (embed_text (to_nat space.dim)) (t ∷ ts),
            map-embed_text-HasDim space.dim (t ∷ ts) h,
          )
  ]

  pub new_fake-Builds : (dim : ℤ) → Builds (new_fake dim)
  unfolding new_fake fake_embed
  new_fake-Builds dim = elim (Option-cases (validate (fake_space dim))) [
    | inr (x, e) ↦ rw (e, Builds) tt
    | inl e ↦ rw (e, Builds) (fake_embed-Fits (fake_space dim) (validate_dim (fake_space dim) e))
  ]
