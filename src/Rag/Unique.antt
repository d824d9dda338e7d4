-- ===== src/Rag/Unique.antt =====
-- Sources lists every source once, in the order in which they are first seen.
use rag_ai_system.Prelude.{
  ◌≡◌, refl, ap₂, ◌∙◌, inl, inr, Bool, true, false, ◌||◌, List, [], ◌∷◌, ◌++◌, arith, ◌==◌, ==_iff,
  Bool-cases, &&-eq_true,
}
use rag_ai_system.Text.{Text, text_eq}
use rag_ai_system.Rag.{Passage, seen_in, add_sources, sources}

pub text_eq_refl : (s : Text) → text_eq s s ≡ true
unfolding text_eq
text_eq_refl [] = refl
text_eq_refl (c ∷ s) = ground (arith, text_eq_refl s)

pub text_eq→eq : (s t : Text) → text_eq s t ≡ true → s ≡ t
unfolding text_eq
text_eq→eq [] [] h = refl
text_eq→eq [] (d ∷ t) h = cc
text_eq→eq (c ∷ s) [] h = cc
text_eq→eq (c ∷ s) (d ∷ t) h =
    let (e, rest) = &&-eq_true (c == d) (text_eq s t) h in
    ap₂ (λ x xs. x ∷ xs) ((==_iff c d).0 e) (text_eq→eq s t rest)

-- Nothing in the list comes twice.
abbrev pub Unique : List Text → Type 0
Unique [] = Unit
Unique (s ∷ ts) = (seen_in s ts ≡ false) × Unique ts

abbrev pub any_source : Text → List Passage → Bool
any_source s [] = false
any_source s (p ∷ ps) = text_eq s p.source || any_source s ps

seen_in-append :
    (s : Text) (xs ys : List Text) → seen_in s (xs ++ ys) ≡ (seen_in s xs || seen_in s ys)
unfolding seen_in
seen_in-append s [] ys = refl
seen_in-append s (x ∷ xs) ys = ground (arith, seen_in-append s xs ys)

pub text_eq_sym : (s t : Text) → text_eq s t ≡ text_eq t s
unfolding text_eq
text_eq_sym [] [] = refl
text_eq_sym [] (d ∷ t) = refl
text_eq_sym (c ∷ s) [] = refl
text_eq_sym (c ∷ s) (d ∷ t) = ground (arith, text_eq_sym s t)

Unique-append :
    (xs : List Text) (s : Text) → Unique xs → seen_in s xs ≡ false → Unique (xs ++ s ∷ [])
unfolding seen_in
Unique-append [] s u n = (refl, tt)
Unique-append (x ∷ xs) s u n = (
  ground (arith, seen_in-append x xs (s ∷ []), text_eq_sym s x, u.0),
  Unique-append xs s u.1 (ground arith),
)

add_sources-Unique :
    (out : List Text) (ps : List Passage) → Unique out → Unique (add_sources out ps)
unfolding add_sources
add_sources-Unique out [] u = u
add_sources-Unique out (p ∷ ps) u = elim (Bool-cases (seen_in p.source out)) [
  | inl e ↦ rw e (add_sources-Unique out ps u)
  | inr e ↦ rw e (add_sources-Unique (out ++ p.source ∷ []) ps (Unique-append out p.source u e))
]

already :
    (s t : Text) (out : List Text) (b : Bool)
    → seen_in t out ≡ true
    → (seen_in s out || b) ≡ (seen_in s out || (text_eq s t || b))
already s t out b h = elim (Bool-cases (text_eq s t)) [
  | inl e ↦ rw (text_eq→eq s t e, h)
  | inr e ↦ rw e
]

seen_in-add_sources :
    (s : Text) (out : List Text) (ps : List Passage)
    → seen_in s (add_sources out ps) ≡ (seen_in s out || any_source s ps)
unfolding add_sources
seen_in-add_sources s out [] = ground arith
seen_in-add_sources s out (p ∷ ps) = elim (Bool-cases (seen_in p.source out)) [
  | inl e ↦ rw (e, seen_in-add_sources s out ps) (already s p.source out (any_source s ps) e)
  | inr e ↦
      rw (e, seen_in-add_sources s (out ++ p.source ∷ []) ps)
        (unfold seen_in in ground (arith, seen_in-append s out (p.source ∷ [])))
]

-- Sources lists nothing twice, and exactly the sources of the passages.
pub sources_lem :
    (passages : List Passage)
    → Unique (sources passages)
      × ((s : Text) → seen_in s (sources passages) ≡ any_source s passages)
unfolding sources
sources_lem passages = (
  add_sources-Unique [] passages tt,
  λ s. seen_in-add_sources s [] passages ∙ (unfold seen_in in refl),
)
