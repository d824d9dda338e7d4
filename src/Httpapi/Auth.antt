-- ===== src/Httpapi/Auth.antt =====
-- internal/httpapi/auth.go and the guard of Serve in server.go. Header values, paths and tokens are
-- lists of bytes here.
mod Tests
use rag_ai_system.Prelude.{
  ℕ, suc, ◌+◌, ◌<◌, ◌≡◌, refl, sym, ap, ◌≢◌, inl, inr, Bool, true, false, not, ◌&&◌, ◌||◌, [], ◌∷◌,
  ◌++◌, arith, leb, ◌==◌, if◌then◌else◌, not_leb, Bool-cases, &&-eq_true, length, take, drop,
  length-append, append-take-drop,
}
use rag_ai_system.Text.{Text, codes, is_nil, text_eq}
use rag_ai_system.Rag.Unique.{text_eq_refl, text_eq→eq}

abbrev fold_byte : ℕ → ℕ
fold_byte c = if leb b'A' c && leb c b'Z' then c + 32 else c

-- The loop of equalFold; the lengths are equal.
unfoldable pub equal_fold : Text → Text → Bool
equal_fold [] [] = true
equal_fold [] (d ∷ b) = false
equal_fold (c ∷ a) [] = false
equal_fold (c ∷ a) (d ∷ b) = fold_byte c == fold_byte d && equal_fold a b

abbrev pub scheme : Text
scheme = codes "Bearer "

unfoldable pub bearer : Text → Text
unfolding equal_fold
bearer header =
    if leb (length header) (length scheme) || not (equal_fold (take (length scheme) header) scheme)
    then []
    else drop (length scheme) header

abbrev pub public_path : Text
public_path = codes "/health"

-- Whether withAuth passes a request on; `sha256` is the digest. What it does not pass on gets 401.
unfoldable pub authorized : (Text → Text) → Text → Text → Text → Bool
unfolding bearer text_eq
authorized sha256 token path header =
    if is_nil token
    then true
    else if text_eq path public_path
    then true
    else text_eq (sha256 (bearer header)) (sha256 token)

-- Whether Serve refuses the listener.
unfoldable pub refuses : Text → Bool → Bool → Bool
refuses token allow_unauthenticated reachable =
    is_nil token && not allow_unauthenticated && reachable

length-equal_fold : (a b : Text) → equal_fold a b ≡ true → length a ≡ length b
unfolding equal_fold
length-equal_fold [] [] h = refl
length-equal_fold [] (d ∷ b) h = cc
length-equal_fold (c ∷ a) [] h = cc
length-equal_fold (c ∷ a) (d ∷ b) h =
    ap suc (length-equal_fold a b (&&-eq_true (fold_byte c == fold_byte d) (equal_fold a b) h).1)

take-append : (a b : Text) → take (length a) (a ++ b) ≡ a
take-append [] b = refl
take-append (c ∷ a) b = rw (take-append a b)

drop-append : (a b : Text) → drop (length a) (a ++ b) ≡ b
drop-append [] b = refl
drop-append (c ∷ a) b = drop-append a b

-- The scheme is matched without regard to case, and the rest of the header is the credential.
bearer-append :
    (s token : Text) → equal_fold s scheme ≡ true → 0 < length token → bearer (s ++ token) ≡ token
unfolding bearer
bearer-append s token h some_token =
    let n : length s ≡ 7 = length-equal_fold s scheme h in
    let longer : leb (length (s ++ token)) 7 ≡ false =
      not_leb (length (s ++ token)) 7 (omega (arith, n, length-append s token)) in
    rw (longer, ← n, take-append s token, h, drop-append s token)

-- On a server with a token, a header with that token under any spelling of the scheme is accepted on
-- every path.
pub authorized_lem :
    (sha256 : Text → Text) (token path : Text) (s : Text)
    → 0 < length token
    → equal_fold s scheme ≡ true
    → authorized sha256 token path (s ++ token) ≡ true
unfolding authorized
authorized_lem sha256 [] path s some_token h = refl
authorized_lem sha256 (c ∷ token) path s some_token h =
    elim (Bool-cases (text_eq path public_path)) [
      | inl e ↦ rw e refl
      | inr e ↦
          rw (e, bearer-append s (c ∷ token) h (omega arith)) (text_eq_refl (sha256 (c ∷ token)))
    ]

-- A header that is the scheme, in some spelling, with a credential of this digest.
abbrev pub Bears : (Text → Text) → Text → Text → Type 0
Bears sha256 token header =
    (s : Text) × (t : Text) × (header ≡ s ++ t)
    × (equal_fold s scheme ≡ true)
    × (sha256 t ≡ sha256 token)

bearer-Bears :
    (sha256 : Text → Text) (token header : Text)
    → sha256 [] ≢ sha256 token
    → sha256 (bearer header) ≡ sha256 token
    → Bears sha256 token header
unfolding bearer
bearer-Bears sha256 token header other h =
    elim (Bool-cases (leb (length header) 7 || not (equal_fold (take 7 header) scheme))) [
      | inl e ↦ absurd (other (rw e at h))
      | inr e ↦ (
        take 7 header,
        drop 7 header,
        sym (append-take-drop 7 header),
        ground (arith, e),
        rw e at h,
      )
    ]

-- On a server with a token whose digest is not that of nothing, a request is let past the public path
-- only if its header is the scheme, in some spelling of upper and lower case, and a credential with
-- the digest of the token.
pub authorized-Bears :
    (sha256 : Text → Text) (token path header : Text)
    → 0 < length token
    → sha256 [] ≢ sha256 token
    → text_eq path public_path ≡ false
    → authorized sha256 token path header ≡ true
    → Bears sha256 token header
unfolding authorized
authorized-Bears sha256 [] path header some_token other private h = absurd (omega arith)
authorized-Bears sha256 (c ∷ token) path header some_token other private h =
    bearer-Bears sha256 (c ∷ token) header other
      (text_eq→eq (sha256 (bearer header)) (sha256 (c ∷ token)) (rw private at h))
