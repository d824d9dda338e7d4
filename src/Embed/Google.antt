-- ===== src/Embed/Google.antt =====
-- embed/google.go: the client of the Gemini API.
use rag_ai_system.Prelude.{
  ℕ, refl, inl, inr, Option, none, some, List, [], ◌∷◌, map, ltb, if◌then◌else◌, Bool-cases,
  Option-cases, length, ℤ, pos, to_nat, Result, ok, err,
}
use rag_ai_system.Text.{Text, codes, is_nil, text_eq}
use rag_ai_system.Backoff.{Err, plain, wrapped}
use rag_ai_system.Backoff.GoogleHint.{Fields, classify_google_err}
use rag_ai_system.Embed.{Kind, document, query, Space, validate, Provider, check_result}
use rag_ai_system.Embed.Contract.{space_error, Fits, checked, checked-Fits, Builds}
use rag_ai_system.Embed.Floats.{FloatOps, normalize}

abbrev pub google_name : Text
google_name = codes "google"

abbrev pub google_max_batch : ℕ
google_max_batch = 100

-- nativeDims; 0 for a model that is not in the table.
unfoldable pub native_dim : Text → ℕ
unfolding text_eq
native_dim model =
    if text_eq model (codes "gemini-embedding-001")
    then 3072
    else if text_eq model (codes "text-embedding-004")
    then 768
    else 0

abbrev pub google_task_type : Kind → Text
google_task_type query = codes "RETRIEVAL_QUERY"
google_task_type document = codes "RETRIEVAL_DOCUMENT"

-- The request: the model, the texts, the task and the dimension that is asked for.
pub record EmbedContent : Type 0 where
  pub model : Text
  pub contents : List Text
  pub task_type : Text
  pub output_dim : Option ℤ

-- `embed_content` is the call of the genai client; `as_api` and `parse_duration` are those of
-- classifyGoogleErr, and `new_client` is the error of genai.NewClient.
module _ {F D S : Type 0} (ops : FloatOps F D) (parse_duration : Text → Option ℤ)
    (as_api : Err → Option (ℤ × List Fields)) (new_client : Option Err)
    (embed_content : EmbedContent → S → Result Err (List (List F)) × S) where
  abbrev pub shrunk : Space → List F → List F
  shrunk space v = if ltb (to_nat space.dim) (native_dim space.model) then normalize ops v else v

  abbrev pub google_error : Err → Err
  google_error e = elim (classify_google_err parse_duration (codes "google embeddings") as_api e) [
    | none ↦ e
    | some x ↦ x
  ]

  abbrev pub read_google :
      Space → List Text → Result Err (List (List F)) → Result Err (List (List F))
  read_google space texts (err e) = err (google_error e)
  read_google space texts (ok got) =
      checked (codes "google embeddings") space texts (map (shrunk space) got)

  abbrev pub google_request : Space → Kind → List Text → EmbedContent
  google_request space kind texts = record {
    model = space.model;
    contents = texts;
    task_type = google_task_type kind;
    output_dim = (if text_eq space.model (codes "embedding-001") then none else some space.dim);
  }

  unfoldable pub google_embed : Space → List Text → Kind → S → Result Err (List (List F)) × S
  unfolding check_result native_dim normalize classify_google_err
  google_embed space [] kind s = (ok [], s)
  google_embed space (t ∷ ts) kind s =
      if ltb google_max_batch (length (t ∷ ts))
      then (err (plain (codes "google embeddings: exceeds the batch limit of 100")), s)
      else (let (got, s') = embed_content (google_request space kind (t ∷ ts)) s in
          (read_google space (t ∷ ts) got, s'))

  abbrev pub google_space : Text → ℤ → Space
  google_space model dim = record { provider = google_name; model = model; dim = dim }

  -- NewGoogle
  unfoldable pub new_google : Text → Text → ℤ → Result Err (Provider F S)
  unfolding validate google_embed
  new_google api_key model dim =
      if is_nil api_key
      then err (plain (codes "google embeddings: API key is empty (set GOOGLE_API_KEY)"))
      else elim (validate (google_space model dim)) [
        | some e ↦ err (space_error e)
        | none ↦ elim new_client [
          | some e ↦ err (wrapped (codes "google embeddings: init client") e)
          | none ↦ ok (record {
            embed = google_embed (google_space model dim);
            space = google_space model dim;
            max_batch = pos google_max_batch;
          })
        ]
      ]

  read_google-Fits :
      (space : Space) (texts : List Text) (got : Result Err (List (List F)))
      → Fits space.dim (length texts) (read_google space texts got)
  read_google-Fits space texts (err e) = tt
  read_google-Fits space texts (ok got) =
      checked-Fits (codes "google embeddings") space texts (map (shrunk space) got)

  google_embed-Fits :
      (space : Space) (texts : List Text) (kind : Kind) (s : S)
      → Fits space.dim (length texts) (google_embed space texts kind s).0
  unfolding google_embed
  google_embed-Fits space [] kind s = (refl, tt)
  google_embed-Fits space (t ∷ ts) kind s =
      elim (Bool-cases (ltb google_max_batch (length (t ∷ ts)))) [
        | inl e ↦ rw e tt
        | inr e ↦ rw e (
            read_google-Fits space (t ∷ ts)
              (embed_content (google_request space kind (t ∷ ts)) s).0)
      ]

  pub new_google-Builds : (api_key model : Text) (dim : ℤ) → Builds (new_google api_key model dim)
  unfolding new_google
  new_google-Builds api_key model dim = elim (Bool-cases (is_nil api_key)) [
    | inl e ↦ rw (e, Builds) tt
    | inr e ↦ elim (Option-cases (validate (google_space model dim))) [
      | inr (x, k) ↦ rw (e, k, Builds) tt
      | inl k ↦ elim (Option-cases new_client) [
        | inr (x, c) ↦ rw (e, k, c, Builds) tt
        | inl c ↦ rw (e, k, c, Builds) (google_embed-Fits (google_space model dim))
      ]
    ]
  ]
