-- ===== src/Chunk/Cut.antt =====
-- Cut returns for every text, its chunks keep the size, and together they show what the text shows.
use rag_ai_system.Prelude.{
  ℕ, suc, ◌+◌, ◌≤◌, ◌<◌, ◌≡◌, refl, sym, ◌∙◌, inl, inr, true, false, some, List, [], ◌∷◌, ◌++◌,
  append-nil, append_assoc, arith, ltb, leb, ltb→lt, ltb→ge, leb→le, leb→gt, Bool-cases, length,
  length-append, All, All-append, concat, concat-append, pos, ok,
}
use rag_ai_system.Text.{Text, is_space, trim_space, newline, scan_lines, visible}
use rag_ai_system.Text.Trim.{visible-append, visible-trim_space}
use rag_ai_system.Chunk.{
  max_buff_size, split_by_runes, Builder, emit, add_long, add_short, add_paragraph, add_paragraphs,
  last_chunk, build, cut_trimmed, cut,
}
use rag_ai_system.Chunk.Gather.{extract_paragraphs_lem}
use rag_ai_system.Chunk.Split.{Fits, split_loop_lem}

abbrev built : Builder → Text
built st = concat st.chunks ++ st.current_chunk

record IsBuilding (n : ℕ) (st : Builder) : Type 0 where
  pub counted : st.current_runes ≡ length st.current_chunk
  pub small : st.current_runes ≤ n
  pub fit : All (Fits n) st.chunks

no_runes : (s : Text) → length s ≡ 0 → s ≡ []
no_runes [] h = refl
no_runes (c ∷ s) h = absurd (omega arith)

newlines_visible : (s : Text) → visible (newline ∷ newline ∷ s) ≡ visible s
unfolding visible is_space
newlines_visible s = refl

-- What is left open by one paragraph.
abbrev Grows : ℕ → Builder → Text → Builder → Type 0
Grows n st p st' = IsBuilding n st' × (visible (built st') ≡ visible (built st) ++ visible p)

emitted :
    (n : ℕ) (st : Builder)
    → IsBuilding n st
    → ltb 0 st.current_runes ≡ true
    → Fits n st.current_chunk
emitted n st h e =
    (omega (arith, ltb→lt 0 st.current_runes e, h.counted), omega (arith, h.small, h.counted))

add_short_lem :
    (n : ℕ) (st : Builder) (p : Text) → IsBuilding n st → Fits n p → Grows n st p (add_short n st p)
unfolding add_short visible
add_short_lem n st p h f = elim (Bool-cases (ltb 0 st.current_runes)) [
  | inl e ↦ rw e (elim (Bool-cases (leb (st.current_runes + (length p + 2)) n)) [
    | inl room ↦ rw room (
      record {
        counted = omega (
          arith,
          h.counted,
          length-append st.current_chunk (newline ∷ newline ∷ []),
          length-append (st.current_chunk ++ newline ∷ newline ∷ []) p,
        );
        small = leb→le _ _ room;
        fit = h.fit;
      },
      simp (visible-append, append_assoc, newlines_visible),
    )
    | inr full ↦ rw full (
      record {
        counted = refl;
        small = f.1;
        fit = All-append (Fits n) st.chunks _ h.fit (emitted n st h e, tt);
      },
      simp (concat-append, append-nil, visible-append),
    )
  ])
  | inr e ↦ rw e (elim (Bool-cases (leb (st.current_runes + length p) n)) [
    | inl room ↦ rw room (
      record {
        counted = omega (arith, h.counted, length-append st.current_chunk p);
        small = leb→le _ _ room;
        fit = h.fit;
      },
      simp (visible-append, append_assoc),
    )
    | inr full ↦ absurd (omega (arith, ltb→ge 0 _ e, leb→gt _ _ full, f))
  ])
]

add_long_lem :
    (n : ℕ) (st : Builder) (p : Text)
    → 0 < n
    → IsBuilding n st
    → (st' : Builder) × (add_long n st p ≡ some st') × Grows n st p st'
unfolding add_long split_by_runes emit visible
add_long_lem n st p pos_n h =
    let (parts, split, whole, fits) = split_loop_lem (length p) p n [] pos_n (omega arith) in
    elim (Bool-cases (ltb 0 st.current_runes)) [
      | inl e ↦ (
        record {
          chunks = (st.chunks ++ st.current_chunk ∷ []) ++ parts;
          current_chunk = [];
          current_runes = 0;
        },
        rw (split, e, add_long) refl,
        (
          record {
            counted = refl;
            small = omega arith;
            fit =
                All-append (Fits n) _ parts
                  (All-append (Fits n) st.chunks _ h.fit (emitted n st h e, tt)) fits;
          },
          simp (concat-append, append-nil, visible-append, whole),
        ),
      )
      | inr e ↦ (
        record st { chunks = st.chunks ++ parts },
        rw (split, e, add_long) refl,
        (
          record {
            counted = h.counted;
            small = h.small;
            fit = All-append (Fits n) st.chunks parts h.fit fits;
          },
          (let none_yet : st.current_chunk ≡ [] =
                no_runes st.current_chunk (omega (arith, ltb→ge 0 _ e, h.counted)) in
              rw none_yet (simp (concat-append, append-nil, visible-append, whole))),
        ),
      )
    ]

add_paragraph_lem :
    (n : ℕ) (st : Builder) (p : Text)
    → 0 < n
    → 0 < length p
    → IsBuilding n st
    → (st' : Builder) × (add_paragraph n st p ≡ some st') × Grows n st p st'
unfolding add_paragraph
add_paragraph_lem n st p pos_n pos_p h = elim (Bool-cases (ltb n (length p))) [
  | inl e ↦ rw e (add_long_lem n st p pos_n h)
  | inr e ↦ rw e (add_short n st p, refl, add_short_lem n st p h (pos_p, ltb→ge n (length p) e))
]

add_paragraphs_lem :
    (n : ℕ) (st : Builder) (ps : List Text)
    → 0 < n
    → All (λ p. 0 < length p) ps
    → IsBuilding n st
    → (st' : Builder) × (add_paragraphs n st ps ≡ some st') × Grows n st (concat ps) st'
unfolding add_paragraphs visible
add_paragraphs_lem n st [] pos_n full h = (st, refl, (h, sym (append-nil (visible (built st)))))
add_paragraphs_lem n st (p ∷ ps) pos_n full h =
    let (st1, step, grows) = add_paragraph_lem n st p pos_n full.0 h in
    let (st2, steps, rest) = add_paragraphs_lem n st1 ps pos_n full.1 grows.0 in
    (
      st2,
      rw (step, add_paragraphs) steps,
      (rest.0, rest.1 ∙ rw (grows.1) (simp (visible-append, append_assoc))),
    )

last_chunk_lem :
    (n : ℕ) (st : Builder)
    → IsBuilding n st
    → All (Fits n) (last_chunk st) × (visible (concat (last_chunk st)) ≡ visible (built st))
unfolding last_chunk
last_chunk_lem n st h = elim (Bool-cases (ltb 0 st.current_runes)) [
  | inl e ↦ rw e (
    All-append (Fits n) st.chunks _ h.fit (emitted n st h e, tt),
    simp (concat-append, append-nil),
  )
  | inr e ↦ rw e (
    h.fit,
    (let none_yet : st.current_chunk ≡ [] =
          no_runes st.current_chunk (omega (arith, ltb→ge 0 _ e, h.counted)) in
        rw none_yet (simp append-nil)),
  )
]

-- What Cut promises of a successful call.
abbrev pub IsCut : ℕ → Text → List Text → Type 0
IsCut n text chunks = All (Fits n) chunks × (visible (concat chunks) ≡ visible text)

-- No line of the trimmed text overflows the scanner's buffer.
abbrev pub Scannable : Text → Type 0
Scannable text = (scan_lines max_buff_size (trim_space text)).1 ≡ false

build_lem :
    (n : ℕ) (ps : List Text)
    → 0 < n
    → All (λ p. 0 < length p) ps
    → (chunks : List Text) × (build n ps ≡ some chunks) × IsCut n (concat ps) chunks
unfolding build visible
build_lem n ps pos_n full =
    let start : Builder = record { chunks = []; current_chunk = []; current_runes = 0 } in
    let (st, steps, grows) =
      add_paragraphs_lem n start ps pos_n full
        (record { counted = refl; small = omega arith; fit = tt }) in
    let (fits, shown) = last_chunk_lem n st grows.0 in
    (last_chunk st, rw (steps, build) refl, (fits, shown ∙ grows.1))

cut_trimmed_lem :
    (n : ℕ) (text : Text)
    → 0 < n
    → (scan_lines max_buff_size text).1 ≡ false
    → (chunks : List Text) × (cut_trimmed n text ≡ some (ok chunks)) × IsCut n text chunks
unfolding cut_trimmed visible
cut_trimmed_lem n [] pos_n h = ([], refl, (tt, refl))
cut_trimmed_lem n (c ∷ s) pos_n h =
    let (ps, got, full, shown) = extract_paragraphs_lem (c ∷ s) h in
    let (chunks, made, is_cut) = build_lem n ps pos_n full in
    (chunks, rw (got, made, cut_trimmed) refl, (is_cut.0, is_cut.1 ∙ shown))

-- For every text whose lines fit the scanner's buffer and every positive size, Cut returns without
-- an error; each chunk is non-empty and at most the size long, and the chunks together show exactly
-- the runes that the text shows, in order.
pub cut-IsCut :
    (text : Text) (n : ℕ)
    → Scannable text
    → (chunks : List Text) × (cut text (pos (suc n)) ≡ some (ok chunks)) × IsCut (suc n) text chunks
unfolding cut
cut-IsCut text n h =
    let (chunks, returned, is_cut) = cut_trimmed_lem (suc n) (trim_space text) (omega arith) h in
    (chunks, returned, (is_cut.0, is_cut.1 ∙ visible-trim_space text))
