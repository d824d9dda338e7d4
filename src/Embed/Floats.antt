-- ===== src/Embed/Floats.antt =====
-- normalize of embed/google.go over the operations of float32 and float64, which are parameters.
use rag_ai_system.Prelude.{
  ◌≡◌, refl, inl, inr, Bool, List, [], ◌∷◌, map, if◌then◌else◌, Bool-cases, length, length-map,
}

pub record FloatOps (F D : Type 0) : Type 0 where
  pub zero32 : F
  pub incr : F → F
  pub decr : F → F
  pub widen : F → D
  pub narrow : D → F
  pub zero64 : D
  pub add : D → D → D
  pub mul : D → D → D
  pub div : D → D → D
  pub sqrt : D → D
  pub is_zero : D → Bool

module _ {F D : Type 0} (ops : FloatOps F D) where
  unfoldable pub square_sum : D → List F → D
  square_sum acc [] = acc
  square_sum acc (x ∷ v) = square_sum (ops.add acc (ops.mul (ops.widen x) (ops.widen x))) v

  unfoldable pub normalize : List F → List F
  unfolding square_sum
  normalize v =
      let norm = ops.sqrt (square_sum ops.zero64 v) in
      if ops.is_zero norm then v else map (λ x. ops.narrow (ops.div (ops.widen x) norm)) v

  pub length-normalize : (v : List F) → length (normalize v) ≡ length v
  unfolding normalize
  length-normalize v = elim (Bool-cases (ops.is_zero (ops.sqrt (square_sum ops.zero64 v)))) [
    | inl e ↦ rw e refl
    | inr e ↦ rw e (
        length-map (λ x. ops.narrow (ops.div (ops.widen x) (ops.sqrt (square_sum ops.zero64 v)))) v)
  ]
