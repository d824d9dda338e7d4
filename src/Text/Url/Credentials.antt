-- ===== src/Text/Url/Credentials.antt =====
-- The credentials in a URL that String wrote.
use rag_ai_system.Prelude.{
  ℕ, ◌/◌, ◌%◌, ◌<◌, ◌≡◌, refl, ap, ◌∙◌, inl, inr, Bool, true, false, ◌||◌, none, some, List, [],
  ◌∷◌, ◌++◌, append_assoc, arith, ◌==◌, if◌then◌else◌, ==_iff, Bool-cases, Option-cases, All,
  All-append,
}
use rag_ai_system.Text.{text_eq}
use rag_ai_system.Text.Utf8.{IsByte}
use rag_ai_system.Text.Url.{
  keeps_user, keeps_path, keeps_host, percent, upper_hex, escape, unhex, with_head, unescape,
  before, after, before_last, Url, rooted, show_url, ends_authority, is_colon, read_credentials,
}

unhex-upper_hex : (n : ℕ) → n < 16 → unhex (upper_hex n) ≡ some n
unfolding unhex upper_hex
unhex-upper_hex n h = ground arith

unescape-plain :
    (c : ℕ) (s : List ℕ) → (c == percent) ≡ false → unescape (c ∷ s) ≡ with_head c (unescape s)
unfolding unescape
unescape-plain c [] h = rw (h, unescape) refl
unescape-plain c (a ∷ []) h = rw (h, unescape) refl
unescape-plain c (a ∷ b ∷ s) h = rw (h, unescape) refl

unescape-coded :
    (b : ℕ) (s : List ℕ)
    → IsByte b
    → unescape (percent ∷ upper_hex (b / 16) ∷ upper_hex (b % 16) ∷ s) ≡ with_head b (unescape s)
unfolding unescape
unescape-coded b s h = elim (Option-cases (unescape s)) [
  | inl e ↦
      rw (unhex-upper_hex (b / 16) (omega arith), unhex-upper_hex (b % 16) (omega arith), e) refl
  | inr (r, e) ↦
      rw (unhex-upper_hex (b / 16) (omega arith), unhex-upper_hex (b % 16) (omega arith), e)
        (ap (λ x. some (x ∷ r)) (omega arith))
]

pub unescape-escape :
    (keeps : ℕ → Bool) (bs : List ℕ)
    → ((b : ℕ) → keeps b ≡ true → (b == percent) ≡ false)
    → All IsByte bs
    → unescape (escape keeps bs) ≡ some bs
unfolding escape unescape
unescape-escape keeps [] k h = refl
unescape-escape keeps (b ∷ bs) k (h, hs) =
    let rest = unescape-escape keeps bs k hs in
    elim (Bool-cases (keeps b)) [
      | inl e ↦ rw (e, escape) (unescape-plain b (escape keeps bs) (k b e) ∙ ap (with_head b) rest)
      | inr e ↦ rw (e, escape) (unescape-coded b (escape keeps bs) h ∙ ap (with_head b) rest)
    ]

-- No byte that the encoding writes is one of `special`.
module _ (keeps special : ℕ → Bool) (kept : (b : ℕ) → keeps b ≡ true → special b ≡ false)
    (coded : (n : ℕ) → n < 16 → special (upper_hex n) ≡ false)
    (sign : special percent ≡ false) where
  escape_free : (bs : List ℕ) → All IsByte bs → All (λ b. special b ≡ false) (escape keeps bs)
  unfolding escape
  escape_free [] h = tt
  escape_free (b ∷ bs) (h, hs) = elim (Bool-cases (keeps b)) [
    | inl e ↦ rw (e, escape) (kept b e, escape_free bs hs)
    | inr e ↦
        rw (e, escape)
          (sign, (coded (b / 16) (omega arith), (coded (b % 16) (omega arith), escape_free bs hs)))
  ]

before-stop :
    (stops : ℕ → Bool) (xs : List ℕ) (c : ℕ) (ys : List ℕ)
    → All (λ b. stops b ≡ false) xs
    → stops c ≡ true
    → (before stops (xs ++ c ∷ ys) ≡ xs) × (after stops (xs ++ c ∷ ys) ≡ ys)
before-stop stops [] c ys h e = (rw e refl, rw e refl)
before-stop stops (x ∷ xs) c ys (h, hs) e =
    let (b, a) = before-stop stops xs c ys hs e in (rw (h, b) refl, rw (h, a) refl)

before_last-none :
    (sep : ℕ) (ys : List ℕ) → All (λ b. (b == sep) ≡ false) ys → before_last sep ys ≡ none
before_last-none sep [] h = refl
before_last-none sep (y ∷ ys) (h, hs) = rw (before_last-none sep ys hs, h) refl

before_last-append :
    (sep : ℕ) (xs ys : List ℕ)
    → All (λ b. (b == sep) ≡ false) ys
    → before_last sep (xs ++ sep ∷ ys) ≡ some xs
before_last-append sep [] ys h = rw (before_last-none sep ys h, (==_iff sep sep).1 refl) refl
before_last-append sep (x ∷ xs) ys h = rw (before_last-append sep xs ys h) refl

-- What follows the authority begins with a byte that ends it.
rooted-ends :
    (path rest : List ℕ)
    → (c : ℕ) × (s : List ℕ) × (rooted path ++ b'?' ∷ rest ≡ c ∷ s) × (ends_authority c ≡ true)
unfolding escape
rooted-ends [] rest = (b'?', rest, refl, refl)
rooted-ends (c ∷ p) rest = elim (Bool-cases (text_eq (c ∷ p) (b'*' ∷ []))) [
  | inl e ↦ (b'/', b'*' ∷ b'?' ∷ rest, rw e refl, refl)
  | inr e ↦ elim (Bool-cases (c == b'/')) [
    | inr k ↦ (b'/', escape keeps_path (c ∷ p) ++ b'?' ∷ rest, rw (e, k) refl, refl)
    | inl k ↦
        let slash : c ≡ b'/' = (==_iff c b'/').0 k in
        (
          b'/',
          escape keeps_path p ++ b'?' ∷ rest,
          rw e (
              ap
                (λ x.
                  (if x == b'/'
                    then escape keeps_path (x ∷ p)
                    else b'/' ∷ escape keeps_path (x ∷ p))
                  ++ b'?' ∷ rest)
                slash),
          refl,
        )
  ]
]

-- The bytes that set the parts of an authority apart, but for the colon.
abbrev is_separator : ℕ → Bool
is_separator c = ends_authority c || c == b'@'

separator_parts :
    (b : ℕ) → is_separator b ≡ false → (ends_authority b ≡ false) × ((b == b'@') ≡ false)
separator_parts b h = ground arith

hex_separator : (n : ℕ) → n < 16 → is_separator (upper_hex n) ≡ false
unfolding upper_hex
hex_separator n h = ground arith

hex_colon : (n : ℕ) → n < 16 → is_colon (upper_hex n) ≡ false
unfolding upper_hex
hex_colon n h = ground arith

user_kept : (b : ℕ) → keeps_user b ≡ true → is_separator b ≡ false
user_kept b h = ground arith

host_kept : (b : ℕ) → keeps_host b ≡ true → is_separator b ≡ false
host_kept b h = ground arith

user_colon : (b : ℕ) → keeps_user b ≡ true → is_colon b ≡ false
user_colon b h = ground arith

user_percent : (b : ℕ) → keeps_user b ≡ true → (b == percent) ≡ false
user_percent b h = ground arith

separated :
    (bs : List ℕ)
    → All (λ b. is_separator b ≡ false) bs
    → All (λ b. ends_authority b ≡ false) bs × All (λ b. (b == b'@') ≡ false) bs
separated [] h = (tt, tt)
separated (b ∷ bs) (h, hs) =
    let (x, y) = separator_parts b h in let (xs, ys) = separated bs hs in ((x, xs), (y, ys))

All-join :
    (P : ℕ → Type 0) (xs : List ℕ) (c : ℕ) (ys : List ℕ)
    → All P xs
    → P c
    → All P ys
    → All P (xs ++ c ∷ ys)
All-join P xs c ys h p k = All-append P xs (c ∷ ys) h (p, k)

-- In what String wrote, reading the user info as Parse does finds the user and the password of the
-- URL, whatever bytes they hold.
pub read_credentials-show_url :
    (u : Url)
    → All IsByte u.user
    → All IsByte u.password
    → All IsByte u.host
    → read_credentials (show_url u) ≡ some (u.user, u.password)
unfolding read_credentials show_url
read_credentials-show_url u hu hp hh =
    let eu = escape keeps_user u.user in
    let ep = escape keeps_user u.password in
    let eh = escape keeps_host u.host in
    let (c, s, tail, ends) = rooted-ends u.path u.raw_query in
    let (nu, au) =
      separated eu (escape_free keeps_user is_separator user_kept hex_separator refl u.user hu) in
    let (np, ap') =
      separated ep
        (escape_free keeps_user is_separator user_kept hex_separator refl u.password hp) in
    let (nh, ah) =
      separated eh (escape_free keeps_host is_separator host_kept hex_separator refl u.host hh) in
    let colons = escape_free keeps_user is_colon user_colon hex_colon refl u.user hu in
    let info = eu ++ b':' ∷ ep in
    let free : All (λ b. ends_authority b ≡ false) (info ++ b'@' ∷ eh) =
      All-join (λ b. ends_authority b ≡ false) info b'@' eh
        (All-join (λ b. ends_authority b ≡ false) eu b':' ep nu refl np) refl nh in
    let shape : eu ++ (b':' ∷ (ep ++ (b'@' ∷ (eh ++ (rooted u.path ++ (b'?' ∷ u.raw_query))))))
        ≡ (info ++ b'@' ∷ eh) ++ c ∷ s =
      rw tail (
        rw
          (
            append_assoc info (b'@' ∷ eh) (c ∷ s),
            append_assoc eu (b':' ∷ ep) (b'@' ∷ (eh ++ c ∷ s)),
          )
          refl) in
    rw
      (
        shape,
        (before-stop ends_authority (info ++ b'@' ∷ eh) c s free ends).0,
        before_last-append b'@' info eh ah,
        (before-stop is_colon eu b':' ep colons refl).0,
        (before-stop is_colon eu b':' ep colons refl).1,
        unescape-escape keeps_user u.user user_percent hu,
        unescape-escape keeps_user u.password user_percent hp,
      )
      refl
