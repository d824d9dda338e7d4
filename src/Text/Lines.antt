-- ===== src/Text/Lines.antt =====
-- Cutting a text into lines loses newlines only.
use rag_ai_system.Prelude.{
  ℕ, ◌≡◌, refl, inl, inr, true, List, [], ◌∷◌, arith, ◌==◌, Bool-cases, concat,
}
use rag_ai_system.Text.{Text, is_space, newline, push, raw_lines, drop_cr, visible}

concat-push : (c : ℕ) (ls : List Text) → concat (push c ls) ≡ c ∷ concat ls
concat-push c [] = refl
concat-push c (l ∷ ls) = refl

newline-is_space : (c : ℕ) → (c == newline) ≡ true → is_space c ≡ true
unfolding is_space
newline-is_space c h = ground arith

cr_is_space : (c : ℕ) → (c == 13) ≡ true → is_space c ≡ true
unfolding is_space
cr_is_space c h = ground arith

pub visible-raw_lines : (s : Text) → visible (concat (raw_lines s)) ≡ visible s
unfolding visible raw_lines
visible-raw_lines [] = refl
visible-raw_lines (c ∷ s) = elim (Bool-cases (c == newline)) [
  | inl e ↦ rw (e, newline-is_space c e) (visible-raw_lines s)
  | inr e ↦ rw (e, concat-push) (rw (visible-raw_lines s))
]

pub visible-drop_cr : (s : Text) → visible (drop_cr s) ≡ visible s
unfolding visible drop_cr
visible-drop_cr [] = refl
visible-drop_cr (c ∷ []) = ground (arith, cr_is_space c)
visible-drop_cr (c ∷ d ∷ s) = ground (arith, visible-drop_cr (d ∷ s))
