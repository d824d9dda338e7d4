-- ===== src/Embed/OpenAi/Order.antt =====
-- Whatever order a service answers in, each vector reaches its text.
mod Tests
use rag_ai_system.Prelude.{
  ℕ, zero, suc, ◌+◌, ◌≤◌, ◌≡◌, refl, ap, ◌∙◌, inl, inr, true, false, Option, none, List, [], ◌∷◌,
  map, arith, ltb, if◌then◌else◌, ==_iff, Bool-cases, length, length-map, All, ℤ, pos, negsuc,
  Result, ok,
}
use rag_ai_system.Text.{Text}
use rag_ai_system.Backoff.{Err}
use rag_ai_system.Http.{Response, Exchange, answered, Post, is_ok}
use rag_ai_system.Embed.{Kind}
use rag_ai_system.Embed.Contract.{HasDim}
use rag_ai_system.Embed.OpenAi.{
  openai_max_batch, Item, OpenAiAnswer, leb_int, put_item, sort_items, with_vector, take_vectors,
  read_items, read_openai, openai_request, openai_embed,
}

-- Two lists with the same elements, as often, in any order.
pub data Shuffle {A : Type 0} : List A → List A → Type 0 where
  done : Shuffle [] []
  skip : (x : A) {xs ys : List A} → Shuffle xs ys → Shuffle (x ∷ xs) (x ∷ ys)
  swap : (x y : A) (xs : List A) → Shuffle (x ∷ y ∷ xs) (y ∷ x ∷ xs)
  follow : {xs ys zs : List A} → Shuffle xs ys → Shuffle ys zs → Shuffle xs zs

-- put_item and sort_items on the indexes alone.
abbrev put_index : ℤ → List ℤ → List ℤ
put_index x [] = x ∷ []
put_index x (y ∷ ys) = let rest = put_index x ys in if leb_int x y then x ∷ y ∷ ys else y ∷ rest

sort_indexes : List ℤ → List ℤ
sort_indexes [] = []
sort_indexes (x ∷ xs) = put_index x (sort_indexes xs)

leb_int_antisym : (x y : ℤ) → leb_int x y ≡ true → leb_int y x ≡ true → x ≡ y
leb_int_antisym (pos a) (pos b) h k = ground arith
leb_int_antisym (pos a) (negsuc b) h k = cc
leb_int_antisym (negsuc a) (pos b) h k = cc
leb_int_antisym (negsuc a) (negsuc b) h k = ground arith

leb_int_total : (x y : ℤ) → leb_int x y ≡ false → leb_int y x ≡ true
leb_int_total (pos a) (pos b) h = ground arith
leb_int_total (pos a) (negsuc b) h = refl
leb_int_total (negsuc a) (pos b) h = cc
leb_int_total (negsuc a) (negsuc b) h = ground arith

leb_int_trans : (x y z : ℤ) → leb_int x y ≡ true → leb_int y z ≡ true → leb_int x z ≡ true
leb_int_trans (pos a) (pos b) (pos c) h k = ground arith
leb_int_trans (pos a) (pos b) (negsuc c) h k = k
leb_int_trans (pos a) (negsuc b) z h k = cc
leb_int_trans (negsuc a) y (pos c) h k = refl
leb_int_trans (negsuc a) (pos b) (negsuc c) h k = cc
leb_int_trans (negsuc a) (negsuc b) (negsuc c) h k = ground arith

put_index_comm :
    (x y : ℤ) (zs : List ℤ) → put_index x (put_index y zs) ≡ put_index y (put_index x zs)
put_index_comm x y [] = ground (arith, leb_int_antisym x y, leb_int_total x y, leb_int_total y x)
put_index_comm x y (z ∷ zs) = ground (
  arith,
  leb_int_antisym x y,
  leb_int_total x y,
  leb_int_total y x,
  leb_int_total x z,
  leb_int_total y z,
  leb_int_trans x y z,
  leb_int_trans y x z,
  put_index_comm x y zs,
)

Shuffle-sort_indexes : {xs ys : List ℤ} → Shuffle xs ys → sort_indexes xs ≡ sort_indexes ys
unfolding sort_indexes
Shuffle-sort_indexes done = refl
Shuffle-sort_indexes (skip x r) = ap (put_index x) (Shuffle-sort_indexes r)
Shuffle-sort_indexes (swap x y xs) = put_index_comm x y (sort_indexes xs)
Shuffle-sort_indexes (follow r q) = Shuffle-sort_indexes r ∙ Shuffle-sort_indexes q

-- 0, 1, ... for so many texts.
abbrev pub indexes_from : ℕ → ℕ → List ℤ
indexes_from k zero = []
indexes_from k (suc n) = pos k ∷ indexes_from (k + 1) n

sort_indexes-from : (k n : ℕ) → sort_indexes (indexes_from k n) ≡ indexes_from k n
unfolding sort_indexes
sort_indexes-from k zero = refl
sort_indexes-from k (suc zero) = refl
sort_indexes-from k (suc (suc n)) = rw (sort_indexes-from (k + 1) (suc n)) (ground arith)

module _ {F : Type 0} (f : ℤ → List F) where
  abbrev pub Answered : Item F → Type 0
  Answered x = x.embedding ≡ f x.index

  map_index-put_item :
      (x : Item F) (xs : List (Item F))
      → map (λ y. y.index) (put_item x xs) ≡ put_index x.index (map (λ y. y.index) xs)
  map_index-put_item x [] = refl
  map_index-put_item x (y ∷ ys) = elim (Bool-cases (leb_int x.index y.index)) [
    | inl e ↦ rw e refl
    | inr e ↦ rw e (ap (λ zs. y.index ∷ zs) (map_index-put_item x ys))
  ]

  map_index-sort_items :
      (xs : List (Item F))
      → map (λ x. x.index) (sort_items xs) ≡ sort_indexes (map (λ x. x.index) xs)
  unfolding sort_items sort_indexes
  map_index-sort_items [] = refl
  map_index-sort_items (x ∷ xs) =
      map_index-put_item x (sort_items xs) ∙ ap (put_index x.index) (map_index-sort_items xs)

  put_item-Answered :
      (x : Item F) (xs : List (Item F))
      → Answered x
      → All Answered xs
      → All Answered (put_item x xs)
  put_item-Answered x [] h hs = (h, tt)
  put_item-Answered x (y ∷ ys) h hs = elim (Bool-cases (leb_int x.index y.index)) [
    | inl e ↦ rw e (h, hs)
    | inr e ↦ rw e (hs.0, put_item-Answered x ys h hs.1)
  ]

  sort_items-Answered : (xs : List (Item F)) → All Answered xs → All Answered (sort_items xs)
  unfolding sort_items
  sort_items-Answered [] hs = tt
  sort_items-Answered (x ∷ xs) hs =
      put_item-Answered x (sort_items xs) hs.0 (sort_items-Answered xs hs.1)

  take_vectors-Answered :
      (dim : ℤ) (xs : List (Item F))
      → ((i : ℤ) → HasDim dim (f i))
      → All Answered xs
      → take_vectors dim xs ≡ ok (map f (map (λ x. x.index) xs))
  unfolding take_vectors
  take_vectors-Answered dim [] d hs = refl
  take_vectors-Answered dim (x ∷ xs) d hs =
      rw (hs.0, d x.index) (ap (with_vector (f x.index)) (take_vectors-Answered dim xs d hs.1))

  -- The answer's elements carry the indexes of the texts, each once, in some order.
  pub record Covers (n : ℕ) (items : List (Item F)) : Type 0 where
    pub shuffled : Shuffle (map (λ x. x.index) items) (indexes_from 0 n)
    pub by_index : All Answered items

  sorted_vectors :
      (dim : ℤ) (n : ℕ) (items : List (Item F))
      → ((i : ℤ) → HasDim dim (f i))
      → Covers n items
      → take_vectors dim (sort_items items) ≡ ok (map f (indexes_from 0 n))
  sorted_vectors dim n items d c =
      take_vectors-Answered dim (sort_items items) d (sort_items-Answered items c.by_index)
      ∙ ap (λ is. ok (map f is))
          (map_index-sort_items items ∙ Shuffle-sort_indexes c.shuffled ∙ sort_indexes-from 0 n)

length-indexes : (k n : ℕ) → length (indexes_from k n) ≡ n
length-indexes k zero = refl
length-indexes k (suc n) = ap suc (length-indexes (k + 1) n)

Shuffle-length : {A : Type 0} {xs ys : List A} → Shuffle xs ys → length xs ≡ length ys
Shuffle-length done = refl
Shuffle-length (skip x r) = ap suc (Shuffle-length r)
Shuffle-length (swap x y xs) = refl
Shuffle-length (follow r q) = Shuffle-length r ∙ Shuffle-length q

-- A service that answers text i with index i and vector f i, in whatever order, is read as the vectors
-- in the order of the texts.
pub openai_embed_order :
    {F S : Type 0} (parse_time : Text → Option ℤ)
    (post : Post (Text × List Text) → S → Exchange × S)
    (decode : Text → Result Err (OpenAiAnswer F)) (f : ℤ → List F) (base_url api_key model : Text)
    (dim : ℤ) (t : Text) (ts : List Text) (kind : Kind) (s : S) (r : Response) (raw : Text)
    (items : List (Item F))
    → length (t ∷ ts) ≤ openai_max_batch
    → (post (openai_request parse_time post decode base_url api_key model kind (t ∷ ts)) s).0
      ≡ answered r
    → is_ok r.status ≡ true
    → r.body ≡ ok raw
    → decode raw ≡ ok (record { items = items; error = none })
    → ((i : ℤ) → HasDim dim (f i))
    → Covers f (length (t ∷ ts)) items
    → (openai_embed parse_time post decode base_url api_key model dim (t ∷ ts) kind s).0
      ≡ ok (map f (indexes_from 0 (length (t ∷ ts))))
unfolding openai_embed
openai_embed_order parse_time post decode f base_url api_key model dim t ts kind s r raw items small
      sent good body decoded dims covers =
    let n = length (t ∷ ts) in
    let same : length items ≡ n = omega (
      arith,
      length-map (λ (x : Item _). x.index) items,
      Shuffle-length covers.shuffled,
      length-indexes 0 n,
    ) in
    let fits : ltb openai_max_batch n ≡ false = ground arith in
    rw (fits, openai_embed)
      (rw (sent, read_openai)
        (rw (body, good)
          (rw (decoded, read_items)
            (rw ((==_iff (length items) n).1 same, read_items)
              (sorted_vectors f dim n items dims covers)))))
