-- ===== src/Embed/Slug.antt =====
-- A space's table name: its characters, its length, and what it tells of the space.
use rag_ai_system.Prelude.{
  ℕ, zero, suc, ◌+◌, ◌-◌, ◌*◌, ◌/◌, ◌%◌, ◌≤◌, ◌<◌, ◌≡◌, refl, ap, inl, inr, Bool, true, false, ◌&&◌,
  ◌||◌, none, List, [], ◌∷◌, ◌++◌, map, arith, ltb, leb, ◌==◌, ltb→lt, ltb→ge, Bool-cases, length,
  take, length-append, length-take, All, All-append, ℤ, pos, negsuc, is_positive,
}
use rag_ai_system.Text.{Text, codes, is_nil}
use rag_ai_system.Text.Decimal.{digits, decimal_int}
use rag_ai_system.Embed.Contract.{validate_dim}
use rag_ai_system.Embed.{
  Space, show_space, validate, max_slug_len, digest_len, is_slug_char, underscore, fold_runes,
  trim_underscores_left, trim_underscores_right, hex_digit, hex, sanitize, slug_suffix, slug_prefix,
  slug,
}

abbrev pub is_identifier_char : ℕ → Bool
is_identifier_char c = (leb b'a' c && leb c b'z') || (leb b'0' c && leb c b'9') || c == underscore

abbrev pub IsIdentifier : Text → Type 0
IsIdentifier = All (λ c. is_identifier_char c ≡ true)

fold_runes-IsIdentifier : (last : Bool) (s : Text) → IsIdentifier (fold_runes last s)
unfolding fold_runes is_slug_char
fold_runes-IsIdentifier last [] = tt
fold_runes-IsIdentifier last (r ∷ s) =
    ground (arith, fold_runes-IsIdentifier false s, fold_runes-IsIdentifier true s)

trim_left-IsIdentifier : (s : Text) → IsIdentifier s → IsIdentifier (trim_underscores_left s)
unfolding trim_underscores_left
trim_left-IsIdentifier [] h = tt
trim_left-IsIdentifier (c ∷ s) h = elim (Bool-cases (c == underscore)) [
  | inl e ↦ rw e (trim_left-IsIdentifier s h.1)
  | inr e ↦ rw e h
]

trim_right-IsIdentifier : (s : Text) → IsIdentifier s → IsIdentifier (trim_underscores_right s)
unfolding trim_underscores_right
trim_right-IsIdentifier [] h = tt
trim_right-IsIdentifier (c ∷ s) h =
    elim (Bool-cases (c == underscore && is_nil (trim_underscores_right s))) [
      | inl e ↦ rw e tt
      | inr e ↦ rw e (h.0, trim_right-IsIdentifier s h.1)
    ]

take-IsIdentifier : (n : ℕ) (s : Text) → IsIdentifier s → IsIdentifier (take n s)
take-IsIdentifier zero s h = tt
take-IsIdentifier (suc n) [] h = tt
take-IsIdentifier (suc n) (c ∷ s) h = (h.0, take-IsIdentifier n s h.1)

hex_digit_lem : (n : ℕ) → n < 16 → is_identifier_char (hex_digit n) ≡ true
unfolding hex_digit
hex_digit_lem n h = ground arith

hex-IsIdentifier : (bs : List ℕ) → All (λ b. b < 256) bs → IsIdentifier (hex bs)
unfolding hex
hex-IsIdentifier [] h = tt
hex-IsIdentifier (b ∷ bs) h = (
  hex_digit_lem (b / 16) (omega arith),
  (hex_digit_lem (b % 16) (omega arith), hex-IsIdentifier bs h.1),
)

digit_lem : (n : ℕ) → n < 10 → is_identifier_char (48 + n) ≡ true
digit_lem n h = ground arith

digits-IsIdentifier : (fuel n : ℕ) → IsIdentifier (digits fuel n)
unfolding digits
digits-IsIdentifier zero n = tt
digits-IsIdentifier (suc fuel) n = elim (Bool-cases (ltb n 10)) [
  | inl e ↦ rw e (digit_lem n (ltb→lt n 10 e), tt)
  | inr e ↦ rw e (
      All-append (λ c. is_identifier_char c ≡ true) (digits fuel (n / 10)) _
        (digits-IsIdentifier fuel (n / 10)) (digit_lem (n % 10) (omega arith), tt))
]

decimal-IsIdentifier : (d : ℤ) → is_positive d ≡ true → IsIdentifier (decimal_int d)
unfolding decimal_int
decimal-IsIdentifier (pos n) h = digits-IsIdentifier (suc n) n
decimal-IsIdentifier (negsuc n) h = cc

length-hex : (bs : List ℕ) → length (hex bs) ≡ 2 * length bs
unfolding hex
length-hex [] = refl
length-hex (b ∷ bs) = omega (arith, length-hex bs)

append_same_tail : (xs ys u v : Text) → length u ≡ length v → xs ++ u ≡ ys ++ v → u ≡ v
append_same_tail [] [] u v h e = e
append_same_tail [] (y ∷ ys) u v h e = absurd (omega (arith, h, ap length e, length-append ys v))
append_same_tail (x ∷ xs) [] u v h e = absurd (omega (arith, h, ap length e, length-append xs u))
append_same_tail (x ∷ xs) (y ∷ ys) u v h e = append_same_tail xs ys u v h (cc)

module _ (to_lower : ℕ → ℕ) (sha256 : Text → List ℕ) where
  sanitize-IsIdentifier : (s : Text) → IsIdentifier (sanitize to_lower sha256 s)
  unfolding sanitize
  sanitize-IsIdentifier s =
      trim_left-IsIdentifier _
        (trim_right-IsIdentifier _ (fold_runes-IsIdentifier false (map to_lower s)))

  slug_prefix-IsIdentifier :
      (s : Space) → is_positive s.dim ≡ true → IsIdentifier (slug_prefix to_lower sha256 s)
  unfolding slug_prefix
  slug_prefix-IsIdentifier s h =
      let P : ℕ → Type 0 = λ c. is_identifier_char c ≡ true in
      All-append P
        (codes "emb_"
          ++ sanitize to_lower sha256 s.provider
          ++ codes "__"
          ++ sanitize to_lower sha256 s.model
          ++ codes "__")
        _
        (All-append P
          (codes "emb_"
            ++ sanitize to_lower sha256 s.provider
            ++ codes "__"
            ++ sanitize to_lower sha256 s.model)
          _
          (All-append P (codes "emb_" ++ sanitize to_lower sha256 s.provider ++ codes "__") _
            (All-append P (codes "emb_" ++ sanitize to_lower sha256 s.provider) _
              (All-append P (codes "emb_") _ (refl, (refl, (refl, (refl, tt))))
                (sanitize-IsIdentifier s.provider))
              (refl, (refl, tt)))
            (sanitize-IsIdentifier s.model))
          (refl, (refl, tt)))
        (decimal-IsIdentifier s.dim h)

  -- SHA-256 gives 32 bytes.
  abbrev pub IsDigest : Type 0
  IsDigest = (s : Text) → (length (sha256 s) ≡ 32) × All (λ b. b < 256) (sha256 s)

  length-slug_suffix : IsDigest → (s : Space) → length (slug_suffix to_lower sha256 s) ≡ 9
  unfolding slug_suffix
  length-slug_suffix h s = omega (
    arith,
    length-take digest_len (hex (sha256 (show_space s))),
    length-hex (sha256 (show_space s)),
    (h (show_space s)).0,
  )

  -- The name of a valid space has only the characters a-z, 0-9 and _, and is at most 54 bytes long.
  pub slug-IsIdentifier :
      IsDigest
      → (s : Space) → validate s ≡ none
      → IsIdentifier (slug to_lower sha256 s) × (length (slug to_lower sha256 s) ≤ max_slug_len)
  unfolding slug
  slug-IsIdentifier h s valid =
      let P : ℕ → Type 0 = λ c. is_identifier_char c ≡ true in
      let suffix = slug_suffix to_lower sha256 s in
      let full = slug_prefix to_lower sha256 s in
      let pre = slug_prefix-IsIdentifier s (validate_dim s valid) in
      let suf : IsIdentifier suffix =
        unfold slug_suffix in
        (refl, take-IsIdentifier digest_len _ (hex-IsIdentifier _ (h (show_space s)).1)) in
      elim (Bool-cases (ltb max_slug_len (length full + length suffix))) [
        | inl e ↦ rw e (
          All-append P (take (max_slug_len - length suffix) full) suffix
              (take-IsIdentifier _ full pre) suf,
          omega (
            arith,
            length-slug_suffix h s,
            length-append (take (max_slug_len - length suffix) full) suffix,
            length-take (max_slug_len - length suffix) full,
          ),
        )
        | inr e ↦ rw e (
          All-append P full suffix pre suf,
          omega (arith, ltb→ge _ _ e, length-append full suffix),
        )
      ]

  -- Two spaces share a name only if the digests that the names end in agree.
  pub slug_suffix_of_slug_eq :
      IsDigest
      → (a b : Space) → slug to_lower sha256 a ≡ slug to_lower sha256 b
      → slug_suffix to_lower sha256 a ≡ slug_suffix to_lower sha256 b
  unfolding slug
  slug_suffix_of_slug_eq h a b e =
      append_same_tail _ _ (slug_suffix to_lower sha256 a) (slug_suffix to_lower sha256 b)
        (omega (arith, length-slug_suffix h a, length-slug_suffix h b)) e
