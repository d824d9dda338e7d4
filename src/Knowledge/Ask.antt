-- ===== src/Knowledge/Ask.antt =====
-- Search and Ask of knowledge/knowledge.go, and Search of internal/storage/search.go.
mod Tests
use rag_ai_system.Prelude.{
  ℕ, ◌≡◌, refl, sym, ap, ◌∙◌, subst, ◌&&◌, Option, none, some, List, [], ◌∷◌, map, ◌==◌,
  if◌then◌else◌, length, ℤ, pos, to_nat, is_positive, Result, ok, err,
}
use rag_ai_system.Text.{Text, codes}
use rag_ai_system.Backoff.{Err, plain, wrapped, positive_or}
use rag_ai_system.Embed.{query, Provider}
use rag_ai_system.Llm.{Generator}
use rag_ai_system.Rag.{Passage, default_max_context_runes, build_user_prompt, sources}

-- `Score` is the type of floats.
pub record Hit (Score : Type 0) : Type 0 where
  pub source : Text
  pub title : Text
  pub index : ℤ
  pub text : Text
  pub score : Score

pub record Answer (Score : Type 0) : Type 0 where
  pub text : Text
  pub model : Text
  pub hits : List (Hit Score)
  pub sources : List Text
  pub top_score : Score

pub data AskError : Type 0 where
  no_generator : AskError
  failed : Err → AskError

-- `nearest v k` is what the statement of storage.Search returns: at most `k` rows, best first.
module _ {F Score S : Type 0} (nearest : List F → ℕ → S → Result Err (List (Hit Score)) × S)
    (dim : ℤ) (embedder : Provider F S) where
  -- storage.Search
  unfoldable pub store_search : List F → ℤ → S → Result Err (List (Hit Score)) × S
  store_search v top_k s =
      if is_positive dim && length v == to_nat dim
      then nearest v (to_nat (positive_or top_k (pos 1))) s
      else (err (plain (codes "query vector has another dimension")), s)

  abbrev pub search_vectors : ℤ → Result Err (List (List F)) × S → Result Err (List (Hit Score)) × S
  search_vectors top_k (err e, s) = (err (wrapped (codes "embed query") e), s)
  search_vectors top_k (ok [], s) = (err (plain (codes "got another number of vectors")), s)
  search_vectors top_k (ok (v ∷ []), s) = store_search v top_k s
  search_vectors top_k (ok (v ∷ w ∷ vs), s) =
      (err (plain (codes "got another number of vectors")), s)

  -- Knowledge.Search
  unfoldable pub search : Text → ℤ → S → Result Err (List (Hit Score)) × S
  unfolding store_search
  search q top_k s = search_vectors top_k (embedder.embed (q ∷ []) query s)

  abbrev pub passage : Hit Score → Passage
  passage h = record { source = h.source; title = h.title; index = h.index; text = h.text }

  abbrev pub top_of : Score → List (Hit Score) → Score
  top_of zero_score [] = zero_score
  top_of zero_score (h ∷ hs) = h.score

  module _ (system_prompt : Text) (zero_score : Score) where
    abbrev pub answer_with :
        Generator S → List (Hit Score) → Result Err Text × S → Result AskError (Answer Score) × S
    answer_with g hits (err e, s) = (err (failed e), s)
    answer_with g hits (ok text, s) = (
      ok (record {
        text = text;
        model = g.model;
        hits = hits;
        sources = sources (map passage hits);
        top_score = top_of zero_score hits;
      }),
      s,
    )

    abbrev pub ask_with :
        Generator S → Text → Result Err (List (Hit Score)) × S → Result AskError (Answer Score) × S
    ask_with g question (err e, s) = (err (failed e), s)
    ask_with g question (ok hits, s) = answer_with g hits (
        g.generate system_prompt
          (build_user_prompt question (map passage hits) (pos default_max_context_runes)) s)

    -- Knowledge.Ask; `none` is a knowledge base opened without a generator.
    unfoldable pub ask : Option (Generator S) → Text → ℤ → S → Result AskError (Answer Score) × S
    unfolding search build_user_prompt sources
    ask none question top_k s = (err no_generator, s)
    ask (some g) question top_k s = ask_with g question (search question top_k s)

    answer_with_ok :
        (g : Generator S) (hits : List (Hit Score)) (r : Result Err Text × S) (s' : S)
        (a : Answer Score)
        → answer_with g hits r ≡ (ok a, s')
        → (hits ≡ a.hits)
          × (r ≡ (ok a.text, s'))
          × (a.sources ≡ sources (map passage hits))
          × (a.top_score ≡ top_of zero_score hits)
    answer_with_ok g hits (err e, s) s' a h = cc
    answer_with_ok g hits (ok text, s) s' a h =
        let made : Answer Score = record {
          text = text;
          model = g.model;
          hits = hits;
          sources = sources (map passage hits);
          top_score = top_of zero_score hits;
        } in
        let same : made ≡ a = cc in
        let at_end : s ≡ s' = cc in
        (
          ap (λ x. x.hits) same,
          ap (λ x. (ok x.text, s)) same ∙ ap (λ t. (ok a.text, t)) at_end,
          sym (ap (λ x. x.sources) same),
          sym (ap (λ x. x.top_score) same),
        )

    ask_with_ok :
        (g : Generator S) (question : Text) (r : Result Err (List (Hit Score)) × S) (s' : S)
        (a : Answer Score)
        → ask_with g question r ≡ (ok a, s')
        → (r.0 ≡ ok a.hits)
          × (g.generate system_prompt
                (build_user_prompt question (map passage a.hits) (pos default_max_context_runes))
                r.1
              ≡ (ok a.text, s'))
          × (a.sources ≡ sources (map passage a.hits))
          × (a.top_score ≡ top_of zero_score a.hits)
    ask_with_ok g question (err e, s) s' a h = cc
    ask_with_ok g question (ok hits, s) s' a h =
        let (same, said, cited, top) = answer_with_ok g hits _ s' a h in
        subst
          (λ hs.
            (◌≡◌ {A = Result Err (List (Hit Score))} (ok hits) (ok hs))
            × (g.generate system_prompt
                  (build_user_prompt question (map passage hs) (pos default_max_context_runes)) s
                ≡ (ok a.text, s'))
            × (a.sources ≡ sources (map passage hs))
            × (a.top_score ≡ top_of zero_score hs))
          same (refl, said, cited, top)

    -- An answer cites what was retrieved: its hits are those of a search for the question from the same
    -- state, its text is the generator's for the prompt built from them, and its sources are theirs.
    pub ask_answers :
        (g : Generator S) (question : Text) (top_k : ℤ) (s s' : S) (a : Answer Score)
        → ask (some g) question top_k s ≡ (ok a, s')
        → let found = search question top_k s in
          (found.0 ≡ ok a.hits)
          × (g.generate system_prompt
                (build_user_prompt question (map passage a.hits) (pos default_max_context_runes))
                found.1
              ≡ (ok a.text, s'))
          × (a.sources ≡ sources (map passage a.hits))
          × (a.top_score ≡ top_of zero_score a.hits)
    unfolding ask
    ask_answers g question top_k s s' a h = ask_with_ok g question (search question top_k s) s' a h
