-- ===== src/Embed/Contract.antt =====
-- The contract of the Provider interface of embed/embed.go: a result has one vector for each text, in
-- the dimension of the provider's space.
use rag_ai_system.Prelude.{
  ℕ, ◌≡◌, inl, inr, true, ◌&&◌, none, some, List, [], ◌∷◌, arith, ◌==◌, ==_iff, Bool-cases,
  &&-eq_true, length, All, ℤ, to_nat, is_positive, Result, ok, err,
}
use rag_ai_system.Text.{Text, codes}
use rag_ai_system.Backoff.{Err, plain, wrapped}
use rag_ai_system.Embed.{
  Kind, Space, SpaceError, no_provider, no_model, dim_out_of_range, validate, Provider, all_dims,
  check_result,
}

-- The errors of Space.Validate.
abbrev pub space_error : SpaceError → Err
space_error no_provider = plain (codes "provider is empty")
space_error no_model = plain (codes "model is empty")
space_error dim_out_of_range = plain (codes "dimension out of range")

pub validate_dim : (s : Space) → validate s ≡ none → is_positive s.dim ≡ true
unfolding validate
validate_dim s h = ground arith

module _ {F : Type 0} where
  abbrev pub HasDim : ℤ → List F → Type 0
  HasDim dim v = (is_positive dim && length v == to_nat dim) ≡ true

  -- So many vectors of that dimension, if there is no error.
  abbrev pub Fits : ℤ → ℕ → Result Err (List (List F)) → Type 0
  Fits dim n (ok vectors) = (length vectors ≡ n) × All (HasDim dim) vectors
  Fits dim n (err e) = Unit

  all_dims-HasDim : (dim : ℤ) (vs : List (List F)) → all_dims dim vs ≡ true → All (HasDim dim) vs
  unfolding all_dims
  all_dims-HasDim dim [] h = tt
  all_dims-HasDim dim (v ∷ vs) h =
      let (this, rest) = &&-eq_true _ _ h in (this, all_dims-HasDim dim vs rest)

  -- How a client ends: with what checkResult says of its vectors.
  abbrev pub checked : Text → Space → List Text → List (List F) → Result Err (List (List F))
  checked ctx space texts got = elim (check_result space texts got) [
    | none ↦ ok got
    | some e ↦ err (wrapped ctx e)
  ]

  pub checked-Fits :
      (ctx : Text) (space : Space) (texts : List Text) (got : List (List F))
      → Fits space.dim (length texts) (checked ctx space texts got)
  unfolding check_result
  checked-Fits ctx space texts got = elim (Bool-cases (length got == length texts)) [
    | inr e ↦ rw (e, checked) tt
    | inl e ↦ elim (Bool-cases (all_dims space.dim got)) [
      | inr k ↦ rw (e, k, checked) tt
      | inl k ↦ rw (e, k, checked) ((==_iff _ _).0 e, all_dims-HasDim space.dim got k)
    ]
  ]

module _ {F S : Type 0} where
  abbrev pub Meets : Provider F S → Type 0
  Meets p =
      (texts : List Text) (kind : Kind) (s : S)
      → Fits p.space.dim (length texts) (p.embed texts kind s).0

  -- What a constructor gives, if it does not refuse, keeps to the contract.
  abbrev pub Builds : Result Err (Provider F S) → Type 0
  Builds (ok p) = Meets p
  Builds (err e) = Unit
