-- ===== src/Llm/OpenAi.antt =====
-- llm/openai.go and llm/openrouter.go: the client of services with the chat interface of OpenAI.
use rag_ai_system.Prelude.{
  inl, inr, Option, none, some, List, [], ◌∷◌, ◌++◌, if◌then◌else◌, Bool-cases, Option-cases, ℤ,
  Result, ok, err, Result-cases,
}
use rag_ai_system.Text.{Text, codes, is_nil, trim_space}
use rag_ai_system.Backoff.{Err, plain, wrapped}
use rag_ai_system.Http.{
  Response, Exchange, unbuilt, unsent, answered, Post, content_type, transport, rejection, is_ok,
  trim_slashes,
}
use rag_ai_system.Llm.{Generator}
use rag_ai_system.Llm.Contract.{Says, Builds, spoken, spoken-Says}

pub record Message : Type 0 where
  pub role : Text
  pub content : Text

-- The model and the messages; no client streams.
pub record ChatRequest : Type 0 where
  pub model : Text
  pub messages : List Message

-- The decoded answer: the contents of its choices, each with its finish reason, and its error.
pub record ChatAnswer : Type 0 where
  pub choices : List (Text × Text)
  pub error : Option Text

abbrev pub openai_name : Text
openai_name = codes "openai"

abbrev pub openrouter_name : Text
openrouter_name = codes "openrouter"

abbrev pub openrouter_base_url : Text
openrouter_base_url = codes "https://openrouter.ai/api/v1"

abbrev pub user_message : Text → Message
user_message user = record { role = codes "user"; content = user }

abbrev pub system_message : Text → Message
system_message system = record { role = codes "system"; content = system }

-- `post` is http.Client.Do on the encoded request, and `decode` is json.Unmarshal.
module _ {S : Type 0} (parse_time : Text → Option ℤ) (post : Post ChatRequest → S → Exchange × S)
    (decode : Text → Result Err ChatAnswer) where
  abbrev pub first_choice : List (Text × Text) → Result Err Text
  first_choice [] = err (plain (codes "openai generation: response contained no choices"))
  first_choice ((content, reason) ∷ choices) =
      spoken (plain (codes "openai generation: empty answer")) content

  abbrev pub read_choices : ChatAnswer → Result Err Text
  read_choices a = elim a.error [
    | some m ↦ err (plain (codes "openai generation: " ++ m))
    | none ↦ first_choice a.choices
  ]

  abbrev pub read_chat_body : Response → Text → Result Err Text
  read_chat_body r raw =
      if is_ok r.status
      then elim (decode raw) [
        | err e ↦ err (wrapped (codes "openai generation: decode response") e)
        | ok a ↦ read_choices a
      ]
      else err (rejection parse_time (plain (codes "openai generation: status")) r)

  abbrev pub read_chat : Exchange → Result Err Text
  read_chat (unbuilt e) = err (wrapped (codes "openai generation: build request") e)
  read_chat (unsent e) = err (transport (wrapped (codes "openai generation") e))
  read_chat (answered r) = elim r.body [
    | err e ↦ err (transport (wrapped (codes "openai generation: read body") e))
    | ok raw ↦ read_chat_body r raw
  ]

  -- A blank system prompt is left out; `extra` holds the headers of a broker.
  abbrev pub chat_request : Text → Text → Text → List (Text × Text) → Text → Text → Post ChatRequest
  chat_request base_url api_key model extra system user = record {
    url = base_url ++ codes "/chat/completions";
    headers =
        content_type
          ∷ (if is_nil api_key
              then []
              else (codes "Authorization", codes "Bearer " ++ api_key) ∷ [])
        ++ extra;
    body = record {
      model = model;
      messages =
          (if is_nil (trim_space system) then [] else system_message system ∷ [])
          ++ user_message user ∷ [];
    };
  }

  unfoldable pub chat_generate :
      Text → Text → Text → List (Text × Text) → Text → Text → S → Result Err Text × S
  unfolding trim_space transport rejection
  chat_generate base_url api_key model extra system user s =
      let (got, s') = post (chat_request base_url api_key model extra system user) s in
      (read_chat got, s')

  -- newOpenAIProvider, with what NewOpenAI passes as `extra` left open.
  unfoldable pub new_chat : Text → Text → Text → List (Text × Text) → Result Err (Generator S)
  unfolding chat_generate trim_slashes
  new_chat base_url api_key model extra =
      if is_nil (trim_space base_url)
      then err (plain (codes "openai generation: base URL is empty (set LLM_BASE_URL)"))
      else if is_nil (trim_space model)
      then err (plain (codes "openai generation: model is empty (set LLM_MODEL)"))
      else ok (record {
        generate = chat_generate (trim_slashes base_url) api_key model extra;
        model = model;
      })

  abbrev pub attribution : Text → Text → List (Text × Text)
  attribution referer title =
      (if is_nil (trim_space referer) then [] else (codes "HTTP-Referer", referer) ∷ [])
      ++ (if is_nil (trim_space title) then [] else (codes "X-Title", title) ∷ [])

  -- NewOpenRouter
  unfoldable pub new_openrouter : Text → Text → Text → Text → Result Err (Generator S)
  new_openrouter api_key model referer title =
      if is_nil (trim_space api_key)
      then err (plain (codes "openrouter generation: no API key (set OPENROUTER_API_KEY)"))
      else if is_nil (trim_space model)
      then err (plain (codes "openrouter generation: no model (set LLM_MODEL)"))
      else new_chat openrouter_base_url api_key model (attribution referer title)

  first_choice-Says : (choices : List (Text × Text)) → Says (first_choice choices)
  first_choice-Says [] = tt
  first_choice-Says ((content, reason) ∷ choices) =
      spoken-Says (plain (codes "openai generation: empty answer")) content

  read_choices-Says : (a : ChatAnswer) → Says (read_choices a)
  read_choices-Says a = elim (Option-cases a.error) [
    | inr (m, e) ↦ rw (e, read_choices) tt
    | inl e ↦ rw (e, read_choices) (first_choice-Says a.choices)
  ]

  read_chat_body-Says : (r : Response) (raw : Text) → Says (read_chat_body r raw)
  read_chat_body-Says r raw = elim (Bool-cases (is_ok r.status)) [
    | inr e ↦ rw (e, read_chat_body) tt
    | inl e ↦ elim (Result-cases (decode raw)) [
      | inl (x, k) ↦ rw (e, k, read_chat_body) tt
      | inr (a, k) ↦ rw (e, k, read_chat_body) (read_choices-Says a)
    ]
  ]

  read_chat-Says : (got : Exchange) → Says (read_chat got)
  read_chat-Says (unbuilt e) = tt
  read_chat-Says (unsent e) = tt
  read_chat-Says (answered r) = elim (Result-cases r.body) [
    | inl (x, k) ↦ rw (k, read_chat) tt
    | inr (raw, k) ↦ rw (k, read_chat) (read_chat_body-Says r raw)
  ]

  pub new_chat-Builds :
      (base_url api_key model : Text) (extra : List (Text × Text))
      → Builds (new_chat base_url api_key model extra)
  unfolding new_chat
  new_chat-Builds base_url api_key model extra = elim (Bool-cases (is_nil (trim_space base_url))) [
    | inl e ↦ rw (e, Builds) tt
    | inr e ↦ elim (Bool-cases (is_nil (trim_space model))) [
      | inl k ↦ rw (e, k, Builds) tt
      | inr k ↦
          rw (e, k, Builds)
            (λ system user s.
              read_chat-Says
                (post (chat_request (trim_slashes base_url) api_key model extra system user) s).0)
    ]
  ]

  pub new_openrouter-Builds :
      (api_key model referer title : Text) → Builds (new_openrouter api_key model referer title)
  unfolding new_openrouter
  new_openrouter-Builds api_key model referer title =
      elim (Bool-cases (is_nil (trim_space api_key))) [
        | inl e ↦ rw (e, Builds) tt
        | inr e ↦ elim (Bool-cases (is_nil (trim_space model))) [
          | inl k ↦ rw (e, k, Builds) tt
          | inr k ↦
              rw (e, k)
                (new_chat-Builds openrouter_base_url api_key model (attribution referer title))
        ]
      ]
