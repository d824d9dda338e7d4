-- ===== src/Embed/Ollama.antt =====
-- embed/ollama.go: the client of a local Ollama server.
use rag_ai_system.Prelude.{
  ℕ, refl, inl, inr, Bool, false, Option, none, some, List, [], ◌∷◌, ◌++◌, map, ltb, ◌==◌,
  if◌then◌else◌, Bool-cases, Option-cases, length, ℤ, pos, negsuc, Result, ok, err, Result-cases,
}
use rag_ai_system.Text.{Text, codes, is_nil}
use rag_ai_system.Backoff.{Err, plain, wrapped, is_transient_status}
use rag_ai_system.Http.{
  Response, Exchange, unbuilt, unsent, answered, Post, content_type, transport, rejection, is_ok,
  trim_slashes,
}
use rag_ai_system.Embed.{Kind, Space, validate, Provider, check_result}
use rag_ai_system.Embed.Contract.{space_error, Fits, checked, checked-Fits, Builds}
use rag_ai_system.Embed.OpenAi.{TaskPrefix, prefix_for, prefix_of}

abbrev pub ollama_name : Text
ollama_name = codes "ollama"

abbrev pub default_ollama_url : Text
default_ollama_url = codes "http://127.0.0.1:11434"

abbrev pub ollama_max_batch : ℕ
ollama_max_batch = 32

abbrev pub ollama_prefixes : List (Text × TaskPrefix)
ollama_prefixes =
    (
      codes "nomic-embed-text",
      record { document = codes "search_document: "; query = codes "search_query: " },
    )
    ∷ (
      codes "mxbai-embed-large",
      record {
        document = [];
        query = codes "Represent this sentence for searching relevant passages: ";
      },
    )
    ∷ []

-- What stands before the first colon.
unfoldable pub base_model_name : Text → Text
base_model_name [] = []
base_model_name (c ∷ s) = let rest = base_model_name s in if c == b':' then [] else c ∷ rest

-- `post` is http.Client.Do on the encoded request; `decode` reads the embeddings of the body.
module _ {F S : Type 0} (parse_time : Text → Option ℤ)
    (post : Post (Text × List Text) → S → Exchange × S)
    (decode : Text → Result Err (List (List F))) where
  abbrev pub read_embeddings : Space → List Text → List (List F) → Result Err (List (List F))
  read_embeddings space texts [] =
      err (plain (codes "ollama embeddings: response contained no embeddings"))
  read_embeddings space texts (v ∷ vs) = checked (codes "ollama embeddings") space texts (v ∷ vs)

  -- A body that breaks off is an error of the decoder.
  abbrev pub decode_body : Result Err Text → Result Err (List (List F))
  decode_body (err e) = err e
  decode_body (ok raw) = decode raw

  abbrev pub is_not_found : ℤ → Bool
  is_not_found (pos code) = code == 404
  is_not_found (negsuc n) = false

  abbrev pub refused : Response → Err
  refused r =
      if is_transient_status r.status
      then rejection parse_time (plain (codes "ollama embeddings: http")) r
      else if is_not_found r.status
      then wrapped (codes "is the model pulled?") (plain (codes "ollama embeddings: http"))
      else plain (codes "ollama embeddings: http")

  abbrev pub read_ollama : Space → List Text → Exchange → Result Err (List (List F))
  read_ollama space texts (unbuilt e) = err (wrapped (codes "ollama embeddings: build request") e)
  read_ollama space texts (unsent e) = err (transport (wrapped (codes "ollama embeddings") e))
  read_ollama space texts (answered r) =
      if is_ok r.status
      then elim (decode_body r.body) [
        | err e ↦ err (wrapped (codes "ollama embeddings: decode response") e)
        | ok got ↦ read_embeddings space texts got
      ]
      else err (refused r)

  abbrev pub ollama_request : Text → TaskPrefix → Space → Kind → List Text → Post (Text × List Text)
  ollama_request base_url prefix space kind texts = record {
    url = base_url ++ codes "/api/embed";
    headers = content_type ∷ [];
    body = (space.model, map (λ t. prefix_for prefix kind ++ t) texts);
  }

  unfoldable pub ollama_embed :
      Text → TaskPrefix → Space → List Text → Kind → S → Result Err (List (List F)) × S
  unfolding check_result transport rejection is_transient_status
  ollama_embed base_url prefix space [] kind s = (ok [], s)
  ollama_embed base_url prefix space (t ∷ ts) kind s =
      if ltb ollama_max_batch (length (t ∷ ts))
      then (err (plain (codes "ollama embeddings: exceeds the batch limit of 32")), s)
      else (let (got, s') = post (ollama_request base_url prefix space kind (t ∷ ts)) s in
          (read_ollama space (t ∷ ts) got, s'))

  abbrev pub ollama_space : Text → ℤ → Space
  ollama_space model dim = record { provider = ollama_name; model = model; dim = dim }

  -- NewOllama
  unfoldable pub new_ollama : Text → Text → ℤ → Result Err (Provider F S)
  unfolding validate trim_slashes prefix_of base_model_name ollama_embed
  new_ollama base_url model dim = elim (validate (ollama_space model dim)) [
    | some e ↦ err (space_error e)
    | none ↦ ok (record {
      embed =
          ollama_embed (trim_slashes (if is_nil base_url then default_ollama_url else base_url))
            (prefix_of (base_model_name model) ollama_prefixes) (ollama_space model dim);
      space = ollama_space model dim;
      max_batch = pos ollama_max_batch;
    })
  ]

  read_embeddings-Fits :
      (space : Space) (texts : List Text) (got : List (List F))
      → Fits space.dim (length texts) (read_embeddings space texts got)
  read_embeddings-Fits space texts [] = tt
  read_embeddings-Fits space texts (v ∷ vs) =
      checked-Fits (codes "ollama embeddings") space texts (v ∷ vs)

  read_ollama-Fits :
      (space : Space) (texts : List Text) (got : Exchange)
      → Fits space.dim (length texts) (read_ollama space texts got)
  read_ollama-Fits space texts (unbuilt e) = tt
  read_ollama-Fits space texts (unsent e) = tt
  read_ollama-Fits space texts (answered r) = elim (Bool-cases (is_ok r.status)) [
    | inr e ↦ rw e tt
    | inl e ↦ elim (Result-cases (decode_body r.body)) [
      | inl (x, k) ↦ rw (e, k) tt
      | inr (got, k) ↦ rw (e, k) (read_embeddings-Fits space texts got)
    ]
  ]

  ollama_embed-Fits :
      (base_url : Text) (prefix : TaskPrefix) (space : Space) (texts : List Text) (kind : Kind)
      (s : S)
      → Fits space.dim (length texts) (ollama_embed base_url prefix space texts kind s).0
  unfolding ollama_embed
  ollama_embed-Fits base_url prefix space [] kind s = (refl, tt)
  ollama_embed-Fits base_url prefix space (t ∷ ts) kind s =
      elim (Bool-cases (ltb ollama_max_batch (length (t ∷ ts)))) [
        | inl e ↦ rw e tt
        | inr e ↦ rw e (
            read_ollama-Fits space (t ∷ ts)
              (post (ollama_request base_url prefix space kind (t ∷ ts)) s).0)
      ]

  pub new_ollama-Builds : (base_url model : Text) (dim : ℤ) → Builds (new_ollama base_url model dim)
  unfolding new_ollama
  new_ollama-Builds base_url model dim = elim (Option-cases (validate (ollama_space model dim))) [
    | inr (x, e) ↦ rw (e, Builds) tt
    | inl e ↦
        rw (e, Builds)
          (ollama_embed-Fits
            (trim_slashes (if is_nil base_url then default_ollama_url else base_url))
            (prefix_of (base_model_name model) ollama_prefixes) (ollama_space model dim))
  ]
