-- ===== src/Embed/OpenAi.antt =====
-- embed/openai.go: the client of services with the embeddings interface of OpenAI.
pub mod Sound
pub mod Order
use rag_ai_system.Prelude.{
  ℕ, Bool, true, false, ◌&&◌, Option, none, some, List, [], ◌∷◌, ◌++◌, map, ltb, leb, ◌==◌,
  if◌then◌else◌, length, ℤ, pos, negsuc, to_nat, is_positive, Result, ok, err,
}
use rag_ai_system.Text.{Text, codes, is_nil, trim_space, text_eq}
use rag_ai_system.Backoff.{Err, plain, wrapped}
use rag_ai_system.Http.{
  Response, Exchange, unbuilt, unsent, answered, Post, content_type, transport, rejection, is_ok,
  trim_slashes,
}
use rag_ai_system.Embed.{Kind, document, query, Provider}

-- A taskPrefix: what stands before a passage and before a query.
pub record TaskPrefix : Type 0 where
  pub document : Text
  pub query : Text

abbrev pub no_prefix : TaskPrefix
no_prefix = record { document = []; query = [] }

abbrev pub prefix_for : TaskPrefix → Kind → Text
prefix_for p document = p.document
prefix_for p query = p.query

-- A map from model names; a missing one gives the zero value.
unfoldable pub prefix_of : Text → List (Text × TaskPrefix) → TaskPrefix
unfolding text_eq
prefix_of model [] = no_prefix
prefix_of model ((name, p) ∷ table) = if text_eq name model then p else prefix_of model table

abbrev e5_prefix : TaskPrefix
e5_prefix = record { document = codes "passage: "; query = codes "query: " }

abbrev pub openai_prefixes : List (Text × TaskPrefix)
openai_prefixes =
    (codes "multilingual-e5-large", e5_prefix)
    ∷ (codes "multilingual-e5-base", e5_prefix)
    ∷ (codes "multilingual-e5-small", e5_prefix)
    ∷ (codes "bge-m3", no_prefix)
    ∷ (
      codes "nomic-embed-text-v1.5",
      record { document = codes "search_document: "; query = codes "search_query: " },
    )
    ∷ []

abbrev pub openai_max_batch : ℕ
openai_max_batch = 64

abbrev pub openai_name : Text
openai_name = codes "openai"

-- One element of the answer's `data`.
module _ (F : Type 0) where
  pub record Item : Type 0 where
    pub index : ℤ
    pub embedding : List F

  -- The decoded answer, with the message of its `error` if it has one.
  pub record OpenAiAnswer : Type 0 where
    pub items : List Item
    pub error : Option Text

-- The order of int.
abbrev pub leb_int : ℤ → ℤ → Bool
leb_int (pos a) (pos b) = leb a b
leb_int (pos a) (negsuc b) = false
leb_int (negsuc a) (pos b) = true
leb_int (negsuc a) (negsuc b) = leb b a

module _ {F : Type 0} where
  abbrev pub put_item : Item F → List (Item F) → List (Item F)
  put_item x [] = x ∷ []
  put_item x (y ∷ ys) =
      let rest = put_item x ys in if leb_int x.index y.index then x ∷ y ∷ ys else y ∷ rest

  -- sort.Slice by index; where indexes are equal, the order of sort.Slice is not determined.
  unfoldable pub sort_items : List (Item F) → List (Item F)
  sort_items [] = []
  sort_items (x ∷ xs) = put_item x (sort_items xs)

  abbrev pub with_vector : List F → Result Err (List (List F)) → Result Err (List (List F))
  with_vector v (ok vs) = ok (v ∷ vs)
  with_vector v (err e) = err e

  -- The last loop of Embed.
  unfoldable pub take_vectors : ℤ → List (Item F) → Result Err (List (List F))
  take_vectors dim [] = ok []
  take_vectors dim (x ∷ xs) =
      if is_positive dim && length x.embedding == to_nat dim
      then with_vector x.embedding (take_vectors dim xs)
      else err (plain (codes "openai embeddings: wrong dimension"))

-- `post` is http.Client.Do on the encoded request, and `decode` is json.Unmarshal.
module _ {F S : Type 0} (parse_time : Text → Option ℤ)
    (post : Post (Text × List Text) → S → Exchange × S)
    (decode : Text → Result Err (OpenAiAnswer F)) where
  abbrev pub read_items : ℤ → ℕ → OpenAiAnswer F → Result Err (List (List F))
  read_items dim n a = elim a.error [
    | some m ↦ err (plain (codes "openai embeddings: " ++ m))
    | none ↦
        if length a.items == n
        then take_vectors dim (sort_items a.items)
        else err (plain (codes "openai embeddings: got another number of vectors"))
  ]

  abbrev pub read_openai_body : ℤ → ℕ → Response → Text → Result Err (List (List F))
  read_openai_body dim n r raw =
      if is_ok r.status
      then elim (decode raw) [
        | err e ↦ err (wrapped (codes "openai embeddings: decode response") e)
        | ok a ↦ read_items dim n a
      ]
      else err (rejection parse_time (plain (codes "openai embeddings: status")) r)

  abbrev pub read_openai : ℤ → ℕ → Exchange → Result Err (List (List F))
  read_openai dim n (unbuilt e) = err (wrapped (codes "openai embeddings: build request") e)
  read_openai dim n (unsent e) = err (transport (wrapped (codes "openai embeddings") e))
  read_openai dim n (answered r) = elim r.body [
    | err e ↦ err (transport (wrapped (codes "openai embeddings: read body") e))
    | ok raw ↦ read_openai_body dim n r raw
  ]

  abbrev pub openai_request : Text → Text → Text → Kind → List Text → Post (Text × List Text)
  openai_request base_url api_key model kind texts = record {
    url = base_url ++ codes "/embeddings";
    headers =
        content_type
        ∷ (if is_nil api_key then [] else (codes "Authorization", codes "Bearer " ++ api_key) ∷ []);
    body = (model, map (λ t. prefix_for (prefix_of model openai_prefixes) kind ++ t) texts);
  }

  unfoldable pub openai_embed :
      Text → Text → Text → ℤ → List Text → Kind → S → Result Err (List (List F)) × S
  unfolding prefix_of sort_items take_vectors transport rejection
  openai_embed base_url api_key model dim [] kind s = (ok [], s)
  openai_embed base_url api_key model dim (t ∷ ts) kind s =
      if ltb openai_max_batch (length (t ∷ ts))
      then (err (plain (codes "openai embeddings: batch exceeds 64")), s)
      else (let (got, s') = post (openai_request base_url api_key model kind (t ∷ ts)) s in
          (read_openai dim (length (t ∷ ts)) got, s'))

  -- NewOpenAI
  unfoldable pub new_openai : Text → Text → Text → ℤ → Result Err (Provider F S)
  unfolding trim_space trim_slashes openai_embed
  new_openai base_url api_key model dim =
      if is_nil (trim_space base_url)
      then err (plain (codes "openai embeddings: base URL is empty (set EMBED_BASE_URL)"))
      else if is_nil (trim_space model)
      then err (plain (codes "openai embeddings: model is empty (set EMBED_MODEL)"))
      else if is_positive dim
      then ok (record {
        embed = openai_embed (trim_slashes base_url) api_key model dim;
        space = record { provider = openai_name; model = model; dim = dim };
        max_batch = pos openai_max_batch;
      })
      else err (plain (codes "openai embeddings: dimension must be positive"))
