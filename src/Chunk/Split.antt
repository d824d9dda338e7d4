-- ===== src/Chunk/Split.antt =====
-- splitByRunes loses nothing and keeps the limit.
use rag_ai_system.Prelude.{
  ℕ, zero, suc, ◌≤◌, ◌<◌, ◌≡◌, refl, ap, ◌∙◌, inl, inr, some, List, [], ◌∷◌, ◌++◌, append-nil,
  append_assoc, arith, ltb, ltb→lt, ltb→ge, Bool-cases, length, take, drop, take-append-drop,
  length-take, length-drop, All, concat,
}
use rag_ai_system.Text.{Text}
use rag_ai_system.Chunk.{split_loop}

-- A chunk of at most `limit` runes that is not empty.
abbrev pub Fits : ℕ → Text → Type 0
Fits limit c = (0 < length c) × (length c ≤ limit)

take-Fits : (s : Text) (limit : ℕ) → 0 < limit → limit < length s → Fits limit (take limit s)
take-Fits s limit h more = omega (arith, length-take limit s)

pub split_loop_lem :
    (fuel : ℕ) (s : Text) (limit : ℕ) (parts : List Text)
    → 0 < limit
    → length s ≤ fuel
    → (qs : List Text) × (split_loop (suc fuel) s limit parts ≡ some (parts ++ qs))
      × (concat qs ≡ s)
      × All (Fits limit) qs
unfolding split_loop
split_loop_lem fuel [] limit parts h f = ([], rw append-nil (ground arith), refl, tt)
split_loop_lem zero (c ∷ s) limit parts h f = absurd (omega arith)
split_loop_lem (suc fuel) (c ∷ s) limit parts h f = elim (Bool-cases (ltb limit (length (c ∷ s)))) [
  | inr e ↦ (
    (c ∷ s) ∷ [],
    rw e refl,
    append-nil (c ∷ s),
    ((omega arith, ltb→ge limit (length (c ∷ s)) e), tt),
  )
  | inl e ↦
      let more = ltb→lt limit (length (c ∷ s)) e in
      let (qs, step, whole, fit) =
        split_loop_lem fuel (drop limit (c ∷ s)) limit (parts ++ take limit (c ∷ s) ∷ []) h
          (omega (arith, length-drop limit (c ∷ s))) in
      (
        take limit (c ∷ s) ∷ qs,
        rw e (step ∙ ap some (append_assoc parts (take limit (c ∷ s) ∷ []) qs)),
        rw whole (take-append-drop limit (c ∷ s)),
        (take-Fits (c ∷ s) limit h more, fit),
      )
]
