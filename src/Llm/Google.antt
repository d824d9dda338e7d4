-- ===== src/Llm/Google.antt =====
-- llm/google.go: the client of the Gemini API.
use rag_ai_system.Prelude.{
  inl, inr, Option, none, some, List, if◌then◌else◌, Bool-cases, Option-cases, ℤ, Result, ok, err,
}
use rag_ai_system.Text.{Text, codes, is_nil, trim_space}
use rag_ai_system.Backoff.{Err, plain, wrapped}
use rag_ai_system.Backoff.GoogleHint.{Fields, classify_google_err}
use rag_ai_system.Llm.{Generator}
use rag_ai_system.Llm.Contract.{Says, Builds, spoken, spoken-Says}

abbrev pub google_name : Text
google_name = codes "google"

-- The request: the model, the system instruction if there is one, and the prompt.
pub record GenerateContent : Type 0 where
  pub model : Text
  pub instruction : Option Text
  pub prompt : Text

-- `generate_content` is the call of the genai client with the text of its response.
module _ {S : Type 0} (parse_duration : Text → Option ℤ) (as_api : Err → Option (ℤ × List Fields))
    (new_client : Option Err) (generate_content : GenerateContent → S → Result Err Text × S) where
  abbrev pub google_error : Err → Err
  google_error e = elim (classify_google_err parse_duration (codes "google generation") as_api e) [
    | none ↦ e
    | some x ↦ x
  ]

  abbrev pub read_text : Result Err Text → Result Err Text
  read_text (err e) = err (google_error e)
  read_text (ok text) = spoken (plain (codes "google generation: returned an empty answer")) text

  abbrev pub content_request : Text → Text → Text → GenerateContent
  content_request model system user = record {
    model = model;
    instruction = (if is_nil system then none else some system);
    prompt = user;
  }

  unfoldable pub gemini_generate : Text → Text → Text → S → Result Err Text × S
  unfolding trim_space classify_google_err
  gemini_generate model system user s =
      let (got, s') = generate_content (content_request model system user) s in (read_text got, s')

  -- NewGoogle
  unfoldable pub new_gemini : Text → Text → Result Err (Generator S)
  unfolding gemini_generate
  new_gemini api_key model =
      if is_nil api_key
      then err (plain (codes "google generation: API key is empty (set GOOGLE_API_KEY)"))
      else if is_nil (trim_space model)
      then err (plain (codes "google generation: model is empty"))
      else elim new_client [
        | some e ↦ err (wrapped (codes "google generation: init client") e)
        | none ↦ ok (record { generate = gemini_generate model; model = model })
      ]

  read_text-Says : (r : Result Err Text) → Says (read_text r)
  read_text-Says (err e) = tt
  read_text-Says (ok text) =
      spoken-Says (plain (codes "google generation: returned an empty answer")) text

  pub new_gemini-Builds : (api_key model : Text) → Builds (new_gemini api_key model)
  unfolding new_gemini
  new_gemini-Builds api_key model = elim (Bool-cases (is_nil api_key)) [
    | inl e ↦ rw (e, Builds) tt
    | inr e ↦ elim (Bool-cases (is_nil (trim_space model))) [
      | inl k ↦ rw (e, k, Builds) tt
      | inr k ↦ elim (Option-cases new_client) [
        | inr (x, c) ↦ rw (e, k, c, Builds) tt
        | inl c ↦
            rw (e, k, c, Builds)
              (λ system user s.
                read_text-Says (generate_content (content_request model system user) s).0)
      ]
    ]
  ]
