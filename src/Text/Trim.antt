-- ===== src/Text/Trim.antt =====
-- Trimming and the white space that it takes away.
use rag_ai_system.Prelude.{
  ◌≤◌, ◌<◌, ◌≡◌, refl, inl, inr, true, false, List, [], ◌∷◌, ◌++◌, arith, Bool-cases, length,
}
use rag_ai_system.Text.{Text, is_space, is_nil, trim_left, trim_right, trim_space, visible}

pub is_nil→eq_nil {ℓ} : {A : Type ℓ} (xs : List A) → is_nil xs ≡ true → xs ≡ []
is_nil→eq_nil [] h = refl
is_nil→eq_nil (x ∷ xs) h = cc

pub is_nil→pos {ℓ} : {A : Type ℓ} (xs : List A) → is_nil xs ≡ false → 0 < length xs
is_nil→pos [] h = cc
is_nil→pos (x ∷ xs) h = omega arith

pub visible-append : (s t : Text) → visible (s ++ t) ≡ visible s ++ visible t
unfolding visible
visible-append [] t = refl
visible-append (c ∷ s) t = elim (Bool-cases (is_space c)) [
  | inl e ↦ rw e (visible-append s t)
  | inr e ↦ rw e (rw (visible-append s t))
]

visible-trim_left : (s : Text) → visible (trim_left s) ≡ visible s
unfolding visible trim_left
visible-trim_left [] = refl
visible-trim_left (c ∷ s) = ground (arith, visible-trim_left s)

visible-trim_right : (s : Text) → visible (trim_right s) ≡ visible s
unfolding visible trim_right
visible-trim_right [] = refl
visible-trim_right (c ∷ s) = ground (arith, visible-trim_right s)

pub visible-trim_space : (s : Text) → visible (trim_space s) ≡ visible s
unfolding trim_space
visible-trim_space s = rw visible-trim_left (visible-trim_right s)

length-trim_left : (s : Text) → length (trim_left s) ≤ length s
unfolding trim_left
length-trim_left [] = omega arith
length-trim_left (c ∷ s) = ground (arith, length-trim_left s)

length-trim_right : (s : Text) → length (trim_right s) ≤ length s
unfolding trim_right
length-trim_right [] = omega arith
length-trim_right (c ∷ s) = ground (arith, length-trim_right s)

pub length-trim_space : (s : Text) → length (trim_space s) ≤ length s
unfolding trim_space
length-trim_space s = omega (arith, length-trim_left (trim_right s), length-trim_right s)

trim_left-eq-nil : (s : Text) → trim_left s ≡ [] → visible s ≡ []
unfolding visible trim_left
trim_left-eq-nil [] h = refl
trim_left-eq-nil (c ∷ s) h = ground (arith, trim_left-eq-nil s)

visible-eq-nil-trim_left : (s : Text) → visible s ≡ [] → trim_left s ≡ []
unfolding visible trim_left
visible-eq-nil-trim_left [] h = refl
visible-eq-nil-trim_left (c ∷ s) h = ground (arith, visible-eq-nil-trim_left s)

-- A text trims to nothing exactly when all of it is white space.
pub trim_space-eq-nil : (s : Text) → trim_space s ≡ [] → visible s ≡ []
unfolding trim_space
trim_space-eq-nil s h = rw (← visible-trim_right s) (trim_left-eq-nil (trim_right s) h)

pub visible-eq-nil-trim_space : (s : Text) → visible s ≡ [] → trim_space s ≡ []
unfolding trim_space
visible-eq-nil-trim_space s h =
    visible-eq-nil-trim_left (trim_right s) (rw (visible-trim_right s) h)

-- Trimming what was trimmed changes nothing.
trim_left-trim_left : (s : Text) → trim_left (trim_left s) ≡ trim_left s
unfolding trim_left
trim_left-trim_left [] = refl
trim_left-trim_left (c ∷ s) = ground (arith, trim_left-trim_left s)

trim_right-trim_right : (s : Text) → trim_right (trim_right s) ≡ trim_right s
unfolding trim_right
trim_right-trim_right [] = refl
trim_right-trim_right (c ∷ s) = ground (arith, trim_right-trim_right s)

trim_right-trim_left : (s : Text) → trim_right s ≡ s → trim_right (trim_left s) ≡ trim_left s
unfolding trim_right trim_left
trim_right-trim_left [] h = refl
trim_right-trim_left (c ∷ s) h = ground (arith, trim_right-trim_left s)

pub trim_space-trim_space : (s : Text) → trim_space (trim_space s) ≡ trim_space s
unfolding trim_space
trim_space-trim_space s =
    rw (trim_right-trim_left (trim_right s) (trim_right-trim_right s)) (trim_left-trim_left _)
