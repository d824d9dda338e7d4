-- ===== src/Llm/Ollama.antt =====
-- llm/ollama.go: the client of a local Ollama server.
use rag_ai_system.Prelude.{
  inl, inr, Bool, false, Option, [], ◌∷◌, ◌++◌, ◌==◌, if◌then◌else◌, Bool-cases, ℤ, pos, negsuc,
  Result, ok, err, Result-cases,
}
use rag_ai_system.Text.{Text, codes, is_nil, trim_space}
use rag_ai_system.Backoff.{Err, plain, wrapped, is_transient_status}
use rag_ai_system.Http.{
  Response, Exchange, unbuilt, unsent, answered, Post, content_type, transport, rejection, is_ok,
  trim_slashes,
}
use rag_ai_system.Embed.Ollama.{default_ollama_url}
use rag_ai_system.Llm.{Generator}
use rag_ai_system.Llm.Contract.{Says, Builds, spoken, spoken-Says}
use rag_ai_system.Llm.OpenAi.{ChatRequest, user_message, system_message}

abbrev pub ollama_name : Text
ollama_name = codes "ollama"

-- `post` is http.Client.Do on the encoded request; `decode` reads the content of the message.
module _ {S : Type 0} (parse_time : Text → Option ℤ) (post : Post ChatRequest → S → Exchange × S)
    (decode : Text → Result Err Text) where
  abbrev pub is_not_found : ℤ → Bool
  is_not_found (pos code) = code == 404
  is_not_found (negsuc n) = false

  abbrev pub refused : Response → Err
  refused r =
      if is_transient_status r.status
      then rejection parse_time (plain (codes "ollama generation: http")) r
      else if is_not_found r.status
      then wrapped (codes "is the model pulled?") (plain (codes "ollama generation: http"))
      else plain (codes "ollama generation: http")

  -- A body that breaks off is an error of the decoder.
  abbrev pub decode_body : Result Err Text → Result Err Text
  decode_body (err e) = err e
  decode_body (ok raw) = decode raw

  abbrev pub read_answer : Exchange → Result Err Text
  read_answer (unbuilt e) = err (wrapped (codes "ollama generation: build request") e)
  read_answer (unsent e) = err (transport (wrapped (codes "ollama generation") e))
  read_answer (answered r) =
      if is_ok r.status
      then elim (decode_body r.body) [
        | err e ↦ err (wrapped (codes "ollama generation: decode response") e)
        | ok content ↦ spoken (plain (codes "ollama generation: returned an empty answer")) content
      ]
      else err (refused r)

  abbrev pub answer_request : Text → Text → Text → Text → Post ChatRequest
  answer_request base_url model system user = record {
    url = base_url ++ codes "/api/chat";
    headers = content_type ∷ [];
    body = record {
      model = model;
      messages =
          (if is_nil system then [] else system_message system ∷ []) ++ user_message user ∷ [];
    };
  }

  unfoldable pub answer_generate : Text → Text → Text → Text → S → Result Err Text × S
  unfolding trim_space transport rejection is_transient_status
  answer_generate base_url model system user s =
      let (got, s') = post (answer_request base_url model system user) s in (read_answer got, s')

  -- NewOllama
  unfoldable pub new_local : Text → Text → Result Err (Generator S)
  unfolding answer_generate trim_slashes
  new_local base_url model =
      if is_nil (trim_space model)
      then err (plain (codes "ollama generation: model is empty"))
      else ok (record {
        generate =
            answer_generate
              (trim_slashes (if is_nil base_url then default_ollama_url else base_url)) model;
        model = model;
      })

  read_answer-Says : (got : Exchange) → Says (read_answer got)
  read_answer-Says (unbuilt e) = tt
  read_answer-Says (unsent e) = tt
  read_answer-Says (answered r) = elim (Bool-cases (is_ok r.status)) [
    | inr e ↦ rw (e, read_answer) tt
    | inl e ↦ elim (Result-cases (decode_body r.body)) [
      | inl (x, k) ↦ rw (e, k, read_answer) tt
      | inr (content, k) ↦
          rw (e, k, read_answer)
            (spoken-Says (plain (codes "ollama generation: returned an empty answer")) content)
    ]
  ]

  pub new_local-Builds : (base_url model : Text) → Builds (new_local base_url model)
  unfolding new_local
  new_local-Builds base_url model = elim (Bool-cases (is_nil (trim_space model))) [
    | inl e ↦ rw (e, Builds) tt
    | inr e ↦
        rw (e, Builds)
          (λ system user s.
            read_answer-Says
              (post
                (answer_request
                  (trim_slashes (if is_nil base_url then default_ollama_url else base_url)) model
                  system user)
                s).0)
  ]
